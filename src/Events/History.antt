-- ===== src/Events/History.antt =====
-- The ring of gateway/events.py and what `recent` reads of it.
use ctrl_gateway.Prelude.{
  ℕ, zero, suc, ◌+◌, ◌-◌, ◌≤◌, ◌<◌, ◌≡◌, refl, sym, ap, ◌∙◌, inl, inr, Bool, Option, List, [], ◌∷◌,
  ◌++◌, String, arith, leb, keep, take, Bool-cases,
}
use ctrl_gateway.Events.{
  EventSource, Event, EventBus, is_wanted, publish, notify_first, notify, subscribe, Step,
  publishes, notifies, subscribes, unsubscribes, gets, step, run, event_bus, collect, reversed,
  recent,
}
use ctrl_gateway.Events.Lists.{
  last, drop_nil, push-last, append_assoc, append_nil, take_nil, reversed-take, keep-reversed,
}

-- The events of the published ones, in order.
abbrev pub published : List Step → List Event
published [] = []
published (publishes running ev ∷ ss) = ev ∷ published ss
published (notifies ∷ ss) = published ss
published (subscribes n ∷ ss) = published ss
published (unsubscribes i ∷ ss) = published ss
published (gets i ∷ ss) = published ss

ring-notify_first : (p : List Event) (b : EventBus) → (notify_first p b).ring ≡ b.ring
ring-notify_first [] b = refl
ring-notify_first (ev ∷ evs) b = refl

size-notify_first :
    (p : List Event) (b : EventBus) → (notify_first p b).ring_buffer_size ≡ b.ring_buffer_size
size-notify_first [] b = refl
size-notify_first (ev ∷ evs) b = refl

ring-run :
    (n : ℕ) (ss : List Step) (b : EventBus) (evs : List Event)
    → b.ring_buffer_size ≡ n
    → b.ring ≡ last n evs
    → (run ss b).ring ≡ last n (evs ++ published ss)
unfolding run step publish notify subscribe
ring-run n [] b evs h k = k ∙ ap (last n) (sym (append_nil evs))
ring-run n (publishes running ev ∷ ss) b evs h k =
    ring-run n ss (publish running ev b) (evs ++ (ev ∷ [])) h (rw (h, k) (push-last n ev evs))
    ∙ ap (last n) (append_assoc evs (ev ∷ []) (published ss))
ring-run n (notifies ∷ ss) b evs h k =
    ring-run n ss (notify b) evs (size-notify_first b.pending b ∙ h)
      (ring-notify_first b.pending b ∙ k)
ring-run n (subscribes m ∷ ss) b evs h k = ring-run n ss _ evs h k
ring-run n (unsubscribes i ∷ ss) b evs h k = ring-run n ss _ evs h k
ring-run n (gets i ∷ ss) b evs h k = ring-run n ss _ evs h k

some_left : (limit have : ℕ) → have < limit → limit - have ≡ suc (limit - (have + 1))
some_left limit have h = omega (arith, h)

minus_zero : (n : ℕ) → n - 0 ≡ n
minus_zero n = omega arith

one_left : (limit have : ℕ) → limit ≡ have + 1 → limit - have ≡ suc zero
one_left limit have h = omega (arith, h)

collect-take :
    (limit : ℕ) (wanted : Event → Bool) (have : ℕ) (evs : List Event)
    → have < limit
    → collect limit wanted have evs ≡ take (limit - have) (keep wanted evs)
unfolding collect
collect-take limit wanted have [] h = rw (take_nil (limit - have)) refl
collect-take limit wanted have (ev ∷ evs) h = elim (Bool-cases (wanted ev)) [
  | inr e ↦ rw e (collect-take limit wanted have evs h)
  | inl e ↦ elim (Bool-cases (leb limit (have + 1))) [
    | inl f ↦ rw (e, f) (rw (one_left limit have (ground (arith, f, h))) refl)
    | inr f ↦
        let more : have + 1 < limit = ground (arith, f) in
        rw (e, f)
          (rw (some_left limit have h)
            (ap (◌∷◌ ev) (collect-take limit wanted (have + 1) evs more)))
  ]
]

collect_none_asked :
    (wanted : Event → Bool) (evs : List Event) → collect 0 wanted 0 evs ≡ collect 1 wanted 0 evs
unfolding collect
collect_none_asked wanted [] = refl
collect_none_asked wanted (ev ∷ evs) = elim (Bool-cases (wanted ev)) [
  | inl e ↦ rw e refl
  | inr e ↦ rw e (collect_none_asked wanted evs)
]

recent-last :
    (limit : ℕ) (source : Option EventSource) (tenant : Option String) (b : EventBus)
    → 1 ≤ limit
    → recent limit source tenant b ≡ last limit (keep (is_wanted source tenant) b.ring)
unfolding recent
recent-last limit source tenant b h =
    ap reversed (
      collect-take limit (is_wanted source tenant) 0 (reversed b.ring) (omega (arith, h))
      ∙ ap (λ k. take k (keep (is_wanted source tenant) (reversed b.ring))) (minus_zero limit)
      ∙ ap (take limit) (keep-reversed (is_wanted source tenant) b.ring))
    ∙ reversed-take limit (keep (is_wanted source tenant) b.ring)

-- After any steps on a new bus, asking for at least one event gives the last that many, in order, of
-- the events of the wanted source and tenant among the last ones published, as many as the ring holds.
pub recent-run :
    (n limit : ℕ) (source : Option EventSource) (tenant : Option String) (ss : List Step)
    → 1 ≤ limit
    → recent limit source tenant (run ss (event_bus n))
      ≡ last limit (keep (is_wanted source tenant) (last n (published ss)))
recent-run n limit source tenant ss h =
    recent-last limit source tenant (run ss (event_bus n)) h
    ∙ ap (λ r. last limit (keep (is_wanted source tenant) r))
        (ring-run n ss (event_bus n) [] refl (sym (drop_nil (0 - n))))

-- Asking for no event at all gives the last wanted one, when the ring has one.
pub recent_none_asked :
    (source : Option EventSource) (tenant : Option String) (b : EventBus)
    → recent 0 source tenant b ≡ recent 1 source tenant b
unfolding recent
recent_none_asked source tenant b =
    ap reversed (collect_none_asked (is_wanted source tenant) (reversed b.ring))
