-- ===== src/Dispatch/Recovery.antt =====
-- What the two questions to the breaker, one by the ladder and one by the client, mean for an
-- endpoint whose breaker has tripped.
use ctrl_gateway.Prelude.{ℕ, ◌+◌, ◌≡◌, String, List, [], ◌∷◌, str_eq, if◌then◌else◌}
use ctrl_gateway.Prelude.Dict
use ctrl_gateway.Prelude.Dict.{Dict}
use ctrl_gateway.Circuit.Registry.{Registry}
use ctrl_gateway.Dispatch.{Client, Exchange, Gateway}
use ctrl_gateway.Dispatch.Fallback.{Routes, Rung, forward_with_fallback}
use ctrl_gateway.Prelude.Text.{Text}
use ctrl_gateway.Dispatch.Waiting.{Waits}

-- How often the endpoint got a request.
unfoldable pub requests_to : String → List String → ℕ
requests_to name [] = 0
requests_to name (n ∷ ns) = (if str_eq n name then 1 else 0) + requests_to name ns

-- After `g'` the endpoint still waits and got no more requests than at `g`.
abbrev Untouched : String → Gateway → Gateway → Type 0
Untouched name g g' =
    (requests_to name g'.posts ≡ requests_to name g.posts) × Waits name g'.registry

-- A request as the ladder meets it.
pub record Asked : Type 0 where
  pub tenant : String
  pub decision : Rung
  pub breaker_states : Dict String
  pub world : ℕ → Exchange

unfoldable pub serve_all : Routes → Dict Client → List Asked → Gateway → Gateway
unfolding forward_with_fallback
serve_all conf pool [] g = g
serve_all conf pool (r ∷ rs) g =
    serve_all conf pool rs
      (forward_with_fallback conf pool r.tenant r.world r.decision r.breaker_states g).1
