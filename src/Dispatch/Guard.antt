-- ===== src/Dispatch/Guard.antt =====
-- The firewall in front of an endpoint's client, gateway/endpoints.py.
use ctrl_gateway.Prelude.{
  ◌≡◌, refl, ◌⊎◌, inl, inr, String, Bool, true, false, some, [], ◌∷◌, ◌++◌, leb, Some, Bool-cases,
  Option-cases,
}
use ctrl_gateway.Prelude.Text.{Text}
use ctrl_gateway.Firewall.{Enforcer, block, check_outbound}
use ctrl_gateway.Firewall.Checks.{IsPermit, closed_by_default}
use ctrl_gateway.Circuit.Registry.{Registry}
use ctrl_gateway.Dispatch.{
  Client, Exchange, HttpAnswer, broken, responded, Gateway, blocked, retryable, is_local_host,
  tenant_or_anonymous, check_firewall, note, note_failure, note_success, single_response, post,
  send,
}

posts-single_response :
    (client : Client) (x : Exchange) (a : HttpAnswer) (g : Gateway)
    → ((single_response client x a g).1.reached ≡ g.reached)
      × ((single_response client x a g).1.posts ≡ g.posts)
unfolding single_response note note_failure note_success
posts-single_response client x broken g = (refl, refl)
posts-single_response client x (responded status body) g = elim (Bool-cases (leb 400 status)) [
  | inl e ↦ rw e (elim (Bool-cases (retryable status)) [
    | inl r ↦ rw r (refl, refl)
    | inr r ↦ rw r (refl, refl)
  ])
  | inr e ↦
      rw e (elim (Option-cases body) [ inl r ↦ rw r (refl, refl) | inr (b, r) ↦ rw r (refl, refl) ])
]

-- The client sends nothing, or one request, to the host and to those it is redirected to.
abbrev pub IsReached : Client → Exchange → Text → Gateway → Gateway → Type 0
IsReached client x host g g' =
    ((g'.reached ≡ g.reached) × (g'.posts ≡ g.posts))
    ⊎ ((g'.reached ≡ g.reached ++ host ∷ x.redirects) × (g'.posts ≡ g.posts ++ client.name ∷ []))

posts-post :
    (client : Client) (x : Exchange) (host : Text) (asked : Bool × Registry) (g : Gateway)
    → IsReached client x host g (post client x host asked g).1
unfolding post
posts-post client x host (false, reg) g = inl (refl, refl)
posts-post client x host (true, reg) g = inr (posts-single_response client x x.answer _)

-- Behind an enabled firewall that blocks by default, `EndpointClient.send`, not streaming, sends a
-- request to a host that is not a loopback only if a rule of the tenant (of "anonymous", if it is
-- empty), or a global one, allows that host. It sends it at most once; the request then reaches that
-- host and those of the redirects from there, which no rule has to allow; and a request that the
-- firewall blocks reaches no host and not the endpoint's breaker.
pub send_permits :
    (tenant : String) (client : Client) (x : Exchange) (host : Text) (g : Gateway) (e : Enforcer)
    → g.firewall ≡ some e
    → e.enabled ≡ true
    → e.default_action ≡ block
    → is_local_host host ≡ false
    → let (s, g') = send tenant client x host g in
      ((g'.reached ≡ g.reached) × (g'.posts ≡ g.posts) × (g'.registry ≡ g.registry) × (s ≡ blocked))
      ⊎ (IsReached client x host g g' × Some (IsPermit host (tenant_or_anonymous tenant)) e.rules)
unfolding send check_firewall
send_permits tenant client x host g e on enabled default far =
    elim (Bool-cases (check_outbound host (tenant_or_anonymous tenant) e).0.allowed) [
      | inl ok ↦
          rw (on, far, ok)
            (inr (
              posts-post client x host _ _,
              closed_by_default host (tenant_or_anonymous tenant) e enabled default ok,
            ))
      | inr stop ↦ rw (on, far, stop) (inl (refl, refl, refl, refl))
    ]
