-- ===== src/Webhooks.antt =====
-- The deliveries of gateway/webhook_dispatcher.py, with the rows of `record_webhook_delivery` of
-- gateway/memory.py. Times are milliseconds and the multiplier of the backoff is a whole number. How
-- each post ends is given by the number of the attempt.
mod Deliveries
mod Tests
use ctrl_gateway.Prelude.{
  ℕ, zero, suc, ◌+◌, ◌-◌, ◌*◌, Bool, true, false, not, ◌&&◌, ◌||◌, Option, none, some, List, [],
  ◌∷◌, ◌++◌, String, leb, ltb, ◌==◌, str_eq, keep, map, any, if◌then◌else◌,
}
use ctrl_gateway.Prelude.Text.{Text}
use ctrl_gateway.Ssrf.{Address, SsrfConfig, ParsedUrl, UrlReason, validate_url}

pub record WebhookRecord : Type 0 where
  pub id : ℕ
  pub url : Text
  pub events : List String
  pub enabled : Bool
  pub max_retries : Option ℕ
  pub tenant_id : String

pub record WebhookDispatcher : Type 0 where
  pub max_retries : ℕ
  pub initial_backoff : ℕ
  pub backoff_multiplier : ℕ

-- How a post ends: with a status, with a time-out or an error of the client, or with any other
-- exception, such as that of the guard of redirects.
pub data Reply : Type 0 where
  responded : ℕ → Reply
  client_error other_exception : Reply

pub data DeliveryError : Type 0 where
  no_error http_error client : DeliveryError
  ssrf_blocked : UrlReason → DeliveryError

-- A row of `webhook_deliveries`
pub record DeliveryRow : Type 0 where
  pub webhook_id : ℕ
  pub event_type : String
  pub tenant_id : Option String
  pub status_code : Option ℕ
  pub error : DeliveryError
  pub attempt : ℕ

-- What a delivery does: its rows and its sleeps, in order, how often it posts, and whether an exception
-- ends it.
pub record Run : Type 0 where
  pub rows : List DeliveryRow
  pub slept : List ℕ
  pub posts : ℕ
  pub raised : Bool

abbrev pub is_success : ℕ → Bool
is_success status = leb 200 status && ltb status 300

abbrev pub matches : WebhookRecord → String → Bool
matches w event_type =
    w.enabled && (any (λ e. str_eq e "*") w.events || any (λ e. str_eq e event_type) w.events)

-- The tenant scope of `dispatch`
abbrev pub in_scope : WebhookRecord → Option String → Bool
in_scope w tenant =
    str_eq w.tenant_id "__all__" || elim tenant [ none ↦ false | some t ↦ str_eq w.tenant_id t ]

-- The webhooks that `dispatch` delivers to, of those of the table.
unfoldable pub matching : String → Option String → List WebhookRecord → List WebhookRecord
matching event_type tenant hooks =
    keep (λ w. matches w event_type && in_scope w tenant) (keep (λ w. w.enabled) hooks)

-- `if effective_retries < 1: effective_retries = 1`, where a negative number is 0 here
abbrev pub at_least_one : ℕ → ℕ
at_least_one n = if ltb n 1 then 1 else n

abbrev pub effective_retries : WebhookDispatcher → WebhookRecord → ℕ
effective_retries d w = elim w.max_retries [
  | none ↦ at_least_one d.max_retries
  | some n ↦ at_least_one n
]

-- A failed attempt, with the sleep when another follows, and the rest of the loop.
abbrev pub then_retry : DeliveryRow → ℕ → ℕ → Run → Run
then_retry row left backoff rest = record {
  rows = row ∷ rest.rows;
  slept = if ltb 0 left then backoff ∷ rest.slept else rest.slept;
  posts = rest.posts + 1;
  raised = rest.raised;
}

module _ (w : WebhookRecord) (event_type : String) (tenant : Option String) where
  abbrev pub row_of : Option ℕ → DeliveryError → ℕ → DeliveryRow
  row_of status error attempt = record {
    webhook_id = w.id;
    event_type = event_type;
    tenant_id = tenant;
    status_code = status;
    error = error;
    attempt = attempt;
  }

  -- What follows the reply of one attempt, when so many are left and the rest is given.
  abbrev pub after_reply : Reply → ℕ → ℕ → ℕ → Run → Run
  after_reply other_exception left attempt backoff rest = record {
    rows = [];
    slept = [];
    posts = 1;
    raised = true;
  }
  after_reply client_error left attempt backoff rest =
      then_retry (row_of none client attempt) left backoff rest
  after_reply (responded status) left attempt backoff rest =
      if is_success status
      then record {
        rows = row_of (some status) no_error attempt ∷ [];
        slept = [];
        posts = 1;
        raised = false;
      }
      else then_retry (row_of (some status) http_error attempt) left backoff rest

  -- The loop over the attempts, of which so many are left.
  unfoldable pub attempts : ℕ → (ℕ → Reply) → ℕ → ℕ → ℕ → Run
  attempts multiplier replies zero attempt backoff = record {
    rows = [];
    slept = [];
    posts = 0;
    raised = false;
  }
  attempts multiplier replies (suc left) attempt backoff =
      let rest = attempts multiplier replies left (attempt + 1) (backoff * multiplier) in
      after_reply (replies attempt) left attempt backoff rest

  -- `_deliver_with_retry`, where the guard of URLs has answered.
  unfoldable pub deliver_with_retry : WebhookDispatcher → Option UrlReason → (ℕ → Reply) → Run
  deliver_with_retry d verdict replies = elim verdict [
    | some r ↦ record {
      rows = row_of none (ssrf_blocked r) 1 ∷ [];
      slept = [];
      posts = 0;
      raised = false;
    }
    | none ↦ attempts d.backoff_multiplier replies (effective_retries d w) 1 d.initial_backoff
  ]

abbrev pub policy : SsrfConfig
policy = record { allow_localhost = true; allow_private = true; allow_link_local = false }

abbrev pub rows_of : List Run → List DeliveryRow
rows_of [] = []
rows_of (r ∷ rs) = r.rows ++ rows_of rs

module _ (ip_address : Text → Option Address) (is_private : Address → Bool)
    (urlparse : Text → Option ParsedUrl) (resolve_host : Text → List Text) where
  -- `dispatch`: the deliveries, one for each webhook that matches, in the order of the webhooks. They
  -- run concurrently, and share nothing but the table that they add rows to.
  unfoldable pub dispatch :
      WebhookDispatcher
      → (WebhookRecord → ℕ → Reply)
      → String
      → Option String
      → List WebhookRecord
      → List Run
  dispatch d replies event_type tenant hooks =
      map
        (λ w.
          deliver_with_retry w event_type tenant d
            (validate_url ip_address is_private urlparse resolve_host w.url policy none none)
            (replies w))
        (matching event_type tenant hooks)
