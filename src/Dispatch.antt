-- ===== src/Dispatch.antt =====
-- The client of an endpoint: `EndpointClient` of gateway/endpoints.py, for a request that is not
-- streamed. What an upstream answers, and when, is an input. The semaphore and the counter of
-- requests in flight, which the client takes and gives back around the request, are left out.
pub mod Fallback
mod Rounds
mod Ladder
mod Rungs
mod Waiting
mod Pool
mod Recovery
mod Guard
mod Tests
use ctrl_gateway.Prelude.{
  ℕ, String, Bool, true, false, ◌||◌, Option, none, some, List, [], ◌∷◌, ◌++◌, leb, ltb, ◌==◌, any,
  not, str_eq, if◌then◌else◌,
}
use ctrl_gateway.Prelude.Int.{ℤ}
use ctrl_gateway.Prelude.Text.{Text, codes, text_eq}
use ctrl_gateway.Circuit
use ctrl_gateway.Circuit.{Event, succeeded, failed, allow}
use ctrl_gateway.Circuit.Registry.{Registry, get, serve, put_back}
use ctrl_gateway.Firewall.{Enforcer, check_outbound}

-- What a client keeps of its `cfg_dict`.
pub record Client : Type 0 where
  pub name : String
  pub breaker : Circuit.Config

-- The body of an answer, decoded: a dict, with the token counts of its `usage` (0 where a count is
-- missing), or another JSON value.
pub data Body : Type 0 where
  completion : ℤ → ℤ → Body
  other : Body

-- What comes of a POST: an exception of the connection or of the reading of an error, or a status with
-- the body, which is `none` where reading or decoding it raises.
pub data HttpAnswer : Type 0 where
  broken : HttpAnswer
  responded : ℕ → Option Body → HttpAnswer

-- One attempt as the outside decides it. `host` is what `extract_domain` finds in the URL that
-- `transcode` builds, and `none` where `transcode` raises; `redirects` are the hosts that the HTTP
-- library goes on to, since it follows redirects unless it is told not to; the rest are the last answer
-- and the clock readings of the two questions to the breaker and of its record.
pub record Exchange : Type 0 where
  pub host : Option Text
  pub redirects : List Text
  pub answer : HttpAnswer
  pub asked_at : ℕ
  pub sent_at : ℕ
  pub ended_at : ℕ
  pub written_at : ℕ

-- The shared state of the clients, with the names of the endpoints that got a request so far, and the
-- hosts that requests reached.
pub record Gateway : Type 0 where
  pub registry : Registry
  pub firewall : Option Enforcer
  pub posts : List String
  pub reached : List Text

-- `send` returns the body or raises one of the rest.
pub data Sent : Type 0 where
  received : Body → Sent
  blocked breaker_open upstream_error : Sent
  http_error : ℕ → Sent

-- `EndpointHTTPError.retryable`
unfoldable pub retryable : ℕ → Bool
retryable status = any (λ s. status == s) (408 ∷ 409 ∷ 429 ∷ []) || leb 500 status

unfoldable pub is_local_host : Text → Bool
is_local_host host =
    any (λ name. text_eq host name)
      (codes "localhost" ∷ codes "127.0.0.1" ∷ codes "0.0.0.0" ∷ codes "::1" ∷ [])

-- `tenant_id or "anonymous"`
abbrev pub tenant_or_anonymous : String → String
tenant_or_anonymous tenant = if str_eq tenant "" then "anonymous" else tenant

-- `_check_firewall`: whether it returns, and the enforcer with its counters.
unfoldable pub check_firewall : Text → String → Option Enforcer → Bool × Option Enforcer
check_firewall host tenant none = (true, none)
check_firewall host tenant (some e) =
    if is_local_host host
    then (true, some e)
    else let (result, e') = check_outbound host (tenant_or_anonymous tenant) e in
      (result.allowed, some e')

-- `registry().get(name, config).allow()`
unfoldable pub ask : String → Circuit.Config → ℕ → Registry → Bool × Registry
ask name config now reg =
    let (b, reg') = get name config now reg in let (ok, b') = allow now b in (ok, put_back reg' b')

-- The client holds the breaker that the registry holds, so its record goes there.
unfoldable pub note : Client → ℕ → Event → Gateway → Gateway
note client now e g = record g { registry = serve client.name client.breaker now e g.registry }

unfoldable pub note_failure : Client → Exchange → Gateway → Gateway
unfolding note
note_failure client x g = note client x.ended_at (failed x.ended_at) g

unfoldable pub note_success : Client → Exchange → Gateway → Gateway
unfolding note
note_success client x g = note client x.ended_at (succeeded x.ended_at x.written_at) g

-- `_single_response`, from the answer on
unfoldable pub single_response : Client → Exchange → HttpAnswer → Gateway → Sent × Gateway
unfolding note_failure note_success retryable
single_response client x broken g = (upstream_error, note_failure client x g)
single_response client x (responded status body) g =
    if leb 400 status
    then (http_error status, if retryable status then note_failure client x g else g)
    else elim body [
      | none ↦ (upstream_error, note_failure client x g)
      | some b ↦ (received b, note_success client x g)
    ]

-- The POST itself, once the breaker has let it through or not.
unfoldable pub post : Client → Exchange → Text → Bool × Registry → Gateway → Sent × Gateway
unfolding single_response
post client x host (false, reg) g = (breaker_open, record g { registry = reg })
post client x host (true, reg) g = single_response client x x.answer (record g {
  registry = reg;
  posts = g.posts ++ client.name ∷ [];
  reached = g.reached ++ host ∷ x.redirects;
})

-- `send(transcoded, stream=False, tenant_id)`
unfoldable pub send : String → Client → Exchange → Text → Gateway → Sent × Gateway
unfolding check_firewall ask post
send tenant client x host g =
    let (permitted, enforcer) = check_firewall host tenant g.firewall in
    let g' : Gateway = record g { firewall = enforcer } in
    if not permitted
    then (blocked, g')
    else post client x host (ask client.name client.breaker x.sent_at g'.registry) g'

-- `health_check`; no request leaves if the session or the URL raises.
unfoldable pub health_check : Exchange → Gateway → Bool × Gateway
health_check x g = elim x.host [
  | none ↦ (false, g)
  | some host ↦ (
    elim x.answer [ broken ↦ false | responded status body ↦ ltb status 500 ],
    record g { reached = g.reached ++ host ∷ x.redirects },
  )
]
