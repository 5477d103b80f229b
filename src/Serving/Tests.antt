-- ===== src/Serving/Tests.antt =====
-- Calls as they are billed, and the theorems at inputs where their hypotheses hold.
use ctrl_gateway.Prelude.{refl, none, some, [], ◌∷◌, true, ℕ, zero, suc}
use ctrl_gateway.Prelude.Int.{pos}
use ctrl_gateway.Prelude.Dict.{Dict}
use ctrl_gateway.Policy.Inputs.{Pricing}
use ctrl_gateway.Prelude.Text.{codes}
use ctrl_gateway.Circuit
use ctrl_gateway.Dispatch.{Client, Exchange, Gateway, broken, responded, completion}
use ctrl_gateway.Dispatch.Fallback.{Routes, forward_with_fallback}
use ctrl_gateway.Serving.{Call, Stream, streamed, reserve_for, serve_json, serve_stream}
use ctrl_gateway.Serving.Charges.{
  IsBilled, json_bill, stream_bill, serve_json-IsBilled, serve_stream-IsBilled,
}

abbrev config : Circuit.Config
config = record { failure_threshold = 3; open_duration = 60; half_open_max_probes = pos 1 }

abbrev conf : Routes
conf = record {
  endpoints =
      record { name = "a"; breaker = config } ∷ record { name = "b"; breaker = config } ∷ [];
  tiers = record { name = "t0"; endpoints = "a" ∷ "b" ∷ [] } ∷ [];
  fallback_endpoint = "";
}

abbrev pool : Dict Client
pool =
    ("a", record { name = "a"; breaker = config })
    ∷ ("b", record { name = "b"; breaker = config })
    ∷ []

abbrev prices : Dict Pricing
prices =
    ("a", record { fixed_per_request = 1; in_per_1k_tokens = 20; out_per_1k_tokens = 60 })
    ∷ ("b", record { fixed_per_request = 0; in_per_1k_tokens = 10; out_per_1k_tokens = 30 })
    ∷ []

abbrev call : Call
call = record {
  tenant = "acme";
  endpoint = "a";
  tier = "t0";
  limits = record {
    budget_limit_usd = pos 1_000_000;
    rps_limit = pos 5;
    token_limit_per_minute = pos 0;
    daily_token_limit = pos 0;
    model_token_limit = pos 0;
    model_usd_limit = pos 0;
    max_request_tokens = pos 0;
  };
  estimate = record { tokens_in = pos 100; tokens_out = pos 200; cost_usd = pos 15_000 };
  now = 10;
  written = 11;
  settled = 90;
}

-- The first endpoint cannot be reached, the second one answers.
abbrev exchange : ℕ → Exchange
exchange zero = record {
  host = some (codes "a.example");
  answer = broken;
  redirects = [];
  asked_at = 20;
  sent_at = 21;
  ended_at = 22;
  written_at = 23;
}
exchange (suc i) = record {
  host = some (codes "b.example");
  answer = responded 200 (some (completion (pos 90) (pos 40)));
  redirects = [];
  asked_at = 30;
  sent_at = 31;
  ended_at = 32;
  written_at = 33;
}

abbrev idle : Gateway
idle = record {
  registry = record { breakers = []; table = [] };
  firewall = none;
  posts = [];
  reached = [];
}

serve_json-IsBilled_example :
    let answer = (forward_with_fallback conf pool "acme" exchange ("a", "t0") [] idle).0 in
    IsBilled call [] []
      (json_bill prices call answer)
      (reserve_for call []).0
      (serve_json conf pool prices exchange [] idle call [] []).0
serve_json-IsBilled_example = serve_json-IsBilled conf pool prices exchange [] idle call [] [] refl

abbrev reported : Stream
reported = streamed true (some (pos 90, pos 40))

serve_stream-IsBilled_example :
    IsBilled call [] []
      (stream_bill prices call reported)
      (reserve_for call []).0
      (serve_stream prices reported call [] [])
serve_stream-IsBilled_example = serve_stream-IsBilled prices reported call [] [] refl
