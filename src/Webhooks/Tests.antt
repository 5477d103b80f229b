-- ===== src/Webhooks/Tests.antt =====
-- A table of webhooks, and the theorems at inputs where their hypotheses hold.
use ctrl_gateway.Prelude.{
  ℕ, ◌≡◌, refl, Bool, true, ◌==◌, String, Option, none, some, List, [], ◌∷◌, map, All,
  if◌then◌else◌,
}
use ctrl_gateway.Prelude.Text.{Text, codes, text_eq, lower}
use ctrl_gateway.Ssrf.{
  Address, v4, ParsedUrl, reason_of, is_blocked_ip, first_blocked, check_addresses, check_host,
  check_parsed, validate_url,
}
use ctrl_gateway.Webhooks.{
  WebhookRecord, WebhookDispatcher, Reply, responded, client_error, other_exception, matching,
  effective_retries, attempts, deliver_with_retry, rows_of, dispatch,
}
use ctrl_gateway.Webhooks.Deliveries.{
  is_retried, deliver_with_retry_bounded, IsReceived, dispatch-IsReceived,
}

program : Unit {0}
unfolding text_eq lower reason_of is_blocked_ip first_blocked check_addresses check_host
    check_parsed validate_url matching attempts deliver_with_retry dispatch
program = tt

abbrev hook : ℕ → String → List String → String → WebhookRecord
hook id url events tenant = record {
  id = id;
  url = codes url;
  events = events;
  enabled = true;
  max_retries = none;
  tenant_id = tenant;
}

abbrev hooks : List WebhookRecord
hooks =
    hook 1 "metadata" ("*" ∷ []) "__all__"
    ∷ hook 2 "of-a" ("status" ∷ []) "a"
    ∷ hook 3 "of-b" ("status" ∷ []) "b"
    ∷ hook 4 "other" ("error" ∷ []) "__all__"
    ∷ []

abbrev dispatcher : WebhookDispatcher
dispatcher = record { max_retries = 3; initial_backoff = 1000; backoff_multiplier = 2 }

-- Two failures, then a success.
abbrev replies : ℕ → Reply
replies n = if n == 1 then responded 503 else if n == 2 then client_error else responded 204

abbrev ip_address : Text → Option Address
ip_address a =
    if text_eq a (codes "metadata")
    then some (v4 0xA9FEA9FE)
    else if text_eq a (codes "10.1.1.1")
    then some (v4 0x0A010101)
    else none

abbrev is_private : Address → Bool
is_private ip = true

abbrev urlparse : Text → Option ParsedUrl
urlparse url = some (record { scheme = codes "https"; hostname = some url })

abbrev lookup : Text → List Text
lookup host = codes "10.1.1.1" ∷ []

third_time :
    (deliver_with_retry (hook 2 "of-a" [] "a") "status" none dispatcher none replies).slept
    ≡ 1000 ∷ 2000 ∷ []
unfolding program
third_time = refl

received :
    map
      (λ r. r.webhook_id)
      (rows_of (
        dispatch ip_address is_private urlparse lookup dispatcher
          (λ w. replies)
          "status"
          (some "a")
          hooks))
    ≡ 1 ∷ 2 ∷ 2 ∷ 2 ∷ []
unfolding program
received = refl

-- The guard of redirects raises an exception that the loop does not catch: no row tells of the attempt.
redirect_unrecorded :
    (deliver_with_retry
      (hook 2 "of-a" [] "a")
      "status"
      none
      dispatcher
      none
      (λ n. other_exception)).rows
    ≡ []
unfolding program
redirect_unrecorded = refl

deliver_with_retry_bounded_example :
    is_retried
      (effective_retries dispatcher (hook 2 "of-a" [] "a"))
      (deliver_with_retry (hook 2 "of-a" [] "a") "status" none dispatcher none replies)
    ≡ true
deliver_with_retry_bounded_example =
    deliver_with_retry_bounded (hook 2 "of-a" [] "a") "status" none dispatcher replies

dispatch-IsReceived_example : All (IsReceived hooks "status" (some "a")) (
    rows_of (
      dispatch ip_address is_private urlparse lookup dispatcher
        (λ w. replies)
        "status"
        (some "a")
        hooks))
dispatch-IsReceived_example =
    dispatch-IsReceived ip_address is_private urlparse lookup dispatcher (λ w. replies) "status"
      (some "a") hooks
