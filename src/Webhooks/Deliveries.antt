-- ===== src/Webhooks/Deliveries.antt =====
-- What a delivery of gateway/webhook_dispatcher.py does, and who receives an event.
use ctrl_gateway.Prelude.{
  ℕ, zero, suc, ◌+◌, ◌*◌, ◌≤◌, ◌≡◌, refl, sym, ap, subst, ◌⊎◌, inl, inr, Bool, true, false, not,
  ◌&&◌, ◌||◌, Option, none, some, List, [], ◌∷◌, String, str_eq, eq_iff, arith, leb, ltb, ◌==◌,
  length, any, keep, map, All, All-append, Some, here, there, if◌then◌else◌, Bool-cases,
  Option-cases,
}
use ctrl_gateway.Prelude.Text.{Text}
use ctrl_gateway.Ssrf.{Address, ParsedUrl, UrlReason, validate_url}
use ctrl_gateway.Webhooks.{
  WebhookRecord, WebhookDispatcher, Reply, responded, client_error, other_exception, no_error,
  http_error, client, ssrf_blocked, DeliveryRow, Run, is_success, matches, in_scope, matching,
  effective_retries, then_retry, row_of, after_reply, attempts, deliver_with_retry, policy, rows_of,
  dispatch,
}

abbrev pub is_delivered : DeliveryRow → Bool
is_delivered r = elim r.error [
  | no_error ↦ true
  | http_error ↦ false
  | client ↦ false
  | ssrf_blocked e ↦ false
]

-- The rows are of the attempts from a number on, one after the other.
abbrev pub numbered : ℕ → List DeliveryRow → Bool
numbered a [] = true
numbered a (r ∷ rs) = r.attempt == a && numbered (a + 1) rs

abbrev pub early_failures : List DeliveryRow → Bool
early_failures [] = true
early_failures (r ∷ rs) = elim rs [ [] ↦ true | s ∷ ss ↦ not (is_delivered r) ] && early_failures rs

-- What a loop of that many attempts may have done: the rows are numbered in order, at most that many,
-- and only the last may be a success; when no exception ended it, the event is delivered or every
-- attempt is made; it posted at most that often and slept once between two posts, and has a row for
-- every post but one that raised.
abbrev pub is_retried : ℕ → Run → Bool
is_retried n r =
    numbered 1 r.rows
    && early_failures r.rows
    && leb (length r.rows) n
    && leb r.posts n
    && (r.raised || any is_delivered r.rows || length r.rows == n)
    && length r.slept + 1 == r.posts
    && length r.rows + (if r.raised then 1 else 0) == r.posts

-- The same for the loop from some attempt on.
abbrev is_going : ℕ → ℕ → Run → Bool
is_going left a r =
    numbered a r.rows
    && early_failures r.rows
    && leb (length r.rows) left
    && leb r.posts left
    && (r.raised || any is_delivered r.rows || length r.rows == left)
    && (if ltb 0 left then length r.slept + 1 == r.posts else (length r.slept == 0 && r.posts == 0))
    && length r.rows + (if r.raised then 1 else 0) == r.posts

early_failures-more :
    (r : DeliveryRow) (rs : List DeliveryRow)
    → is_delivered r ≡ false
    → early_failures rs ≡ true
    → early_failures (r ∷ rs) ≡ true
early_failures-more r [] h k = refl
early_failures-more r (s ∷ rs) h k = ground (arith, h, k)

then_retry_going :
    (row : DeliveryRow) (left a backoff : ℕ) (rest : Run)
    → row.attempt == a ≡ true
    → is_delivered row ≡ false
    → is_going left (a + 1) rest ≡ true
    → is_going (suc left) a (then_retry row left backoff rest) ≡ true
then_retry_going row left a backoff rest e f h =
    ground (arith, e, f, h, early_failures-more row rest.rows f)

going_retried : (n : ℕ) (r : Run) → 1 ≤ n → is_going n 1 r ≡ true → is_retried n r ≡ true
going_retried n r h k = ground (arith, h, k)

effective_retries-positive : (d : WebhookDispatcher) (w : WebhookRecord) → 1 ≤ effective_retries d w
effective_retries-positive d w = elim (Option-cases w.max_retries) [
  | inl e ↦ rw (e, effective_retries) (ground arith)
  | inr (n, e) ↦ rw (e, effective_retries) (ground arith)
]

-- The row is of the webhook and the event.
abbrev IsOf : WebhookRecord → String → Option String → DeliveryRow → Type 0
IsOf w event_type tenant r =
    (r.webhook_id ≡ w.id) × (r.event_type ≡ event_type) × (r.tenant_id ≡ tenant)

module _ (w : WebhookRecord) (event_type : String) (tenant : Option String) where
  attempted :
      (reply : Reply) (left a backoff : ℕ) (rest : Run)
      → is_going left (a + 1) rest ≡ true
      → is_going (suc left) a (after_reply w event_type tenant reply left a backoff rest) ≡ true
  attempted other_exception left a backoff rest h = ground arith
  attempted client_error left a backoff rest h =
      then_retry_going (row_of w event_type tenant none client a) left a backoff rest (ground arith)
        refl h
  attempted (responded status) left a backoff rest h = elim (Bool-cases (is_success status)) [
    | inl e ↦ rw e (ground arith)
    | inr e ↦ rw e (
        then_retry_going (row_of w event_type tenant (some status) http_error a) left a backoff rest
          (ground arith) refl h)
  ]

  attempts_going :
      (multiplier : ℕ) (replies : ℕ → Reply) (left a backoff : ℕ)
      → is_going left a (attempts w event_type tenant multiplier replies left a backoff) ≡ true
  unfolding attempts
  attempts_going multiplier replies zero a backoff = refl
  attempts_going multiplier replies (suc left) a backoff =
      attempted (replies a) left a backoff _
        (attempts_going multiplier replies left (a + 1) (backoff * multiplier))

  -- A delivery to a URL that the guard lets through posts at most as often as it may retry: its rows
  -- are numbered from one on, and only the last may be a success; unless an exception that it does
  -- not catch ends it, the event is delivered or every attempt is made; each post has a row, but the
  -- one that raises such an exception; and it sleeps exactly between two posts.
  pub deliver_with_retry_bounded :
      (d : WebhookDispatcher) (replies : ℕ → Reply)
      → is_retried (effective_retries d w) (deliver_with_retry w event_type tenant d none replies)
        ≡ true
  unfolding deliver_with_retry
  deliver_with_retry_bounded d replies =
      going_retried (effective_retries d w)
        (attempts w event_type tenant d.backoff_multiplier replies (effective_retries d w) 1
          d.initial_backoff)
        (effective_retries-positive d w)
        (attempts_going d.backoff_multiplier replies (effective_retries d w) 1 d.initial_backoff)

  attempted-IsOf :
      (reply : Reply) (left a backoff : ℕ) (rest : Run)
      → All (IsOf w event_type tenant) rest.rows
      → All
          (IsOf w event_type tenant)
          (after_reply w event_type tenant reply left a backoff rest).rows
  attempted-IsOf other_exception left a backoff rest h = tt
  attempted-IsOf client_error left a backoff rest h = ((refl, refl, refl), h)
  attempted-IsOf (responded status) left a backoff rest h = elim (Bool-cases (is_success status)) [
    | inl e ↦ rw e ((refl, refl, refl), tt)
    | inr e ↦ rw e ((refl, refl, refl), h)
  ]

  attempts-IsOf :
      (multiplier : ℕ) (replies : ℕ → Reply) (left a backoff : ℕ)
      → All
          (IsOf w event_type tenant)
          (attempts w event_type tenant multiplier replies left a backoff).rows
  unfolding attempts
  attempts-IsOf multiplier replies zero a backoff = tt
  attempts-IsOf multiplier replies (suc left) a backoff =
      attempted-IsOf (replies a) left a backoff _
        (attempts-IsOf multiplier replies left (a + 1) (backoff * multiplier))

  deliver-IsOf :
      (d : WebhookDispatcher) (verdict : Option UrlReason) (replies : ℕ → Reply)
      → All
          (IsOf w event_type tenant)
          (deliver_with_retry w event_type tenant d verdict replies).rows
  unfolding deliver_with_retry
  deliver-IsOf d none replies =
      attempts-IsOf d.backoff_multiplier replies (effective_retries d w) 1 d.initial_backoff
  deliver-IsOf d (some r) replies = ((refl, refl, refl), tt)

All-weaken :
    {A : Type 0} {P Q : A → Type 0} (xs : List A) → ((x : A) → P x → Q x) → All P xs → All Q xs
All-weaken [] f h = tt
All-weaken (x ∷ xs) f h = (f x h.0, All-weaken xs f h.1)

Some-keep :
    {A : Type 0} (p : A → Bool) (x : A) (xs : List A)
    → Some (λ y. y ≡ x) (keep p xs)
    → Some (λ y. y ≡ x) xs × (p x ≡ true)
Some-keep p x [] s = elim s [ ]
Some-keep p x (y ∷ ys) s = elim (Bool-cases (p y)) [
  | inl e ↦ elim (subst (λ b. Some (λ z. z ≡ x) (if b then y ∷ keep p ys else keep p ys)) e s) [
    | here q ↦ (here q, subst (λ z. p z ≡ true) q e)
    | there t ↦ let rest = Some-keep p x ys t in (there rest.0, rest.1)
  ]
  | inr e ↦
      let rest =
        Some-keep p x ys
          (subst (λ b. Some (λ z. z ≡ x) (if b then y ∷ keep p ys else keep p ys)) e s) in
      (there rest.0, rest.1)
]

-- A row is of a webhook of the table that is enabled, subscribed to the event, and of all tenants or
-- of the tenant of the event.
abbrev pub IsReceived : List WebhookRecord → String → Option String → DeliveryRow → Type 0
IsReceived hooks event_type tenant r =
    (w : WebhookRecord) × Some (λ x. x ≡ w) hooks
    × (r.webhook_id ≡ w.id)
    × (r.event_type ≡ event_type)
    × (matches w event_type ≡ true)
    × ((w.tenant_id ≡ "__all__") ⊎ (tenant ≡ some w.tenant_id))

scoped :
    (w : WebhookRecord) (tenant : Option String)
    → in_scope w tenant ≡ true
    → (w.tenant_id ≡ "__all__") ⊎ (tenant ≡ some w.tenant_id)
scoped w none h = inl ((eq_iff w.tenant_id "__all__").0 (ground (arith, h)))
scoped w (some t) h = elim (Bool-cases (str_eq w.tenant_id "__all__")) [
  | inl e ↦ inl ((eq_iff w.tenant_id "__all__").0 e)
  | inr e ↦ inr (ap some (sym ((eq_iff w.tenant_id t).0 (ground (arith, h, e)))))
]

matching-receives :
    (w : WebhookRecord) (event_type : String) (tenant : Option String) (hooks : List WebhookRecord)
    (r : DeliveryRow)
    → Some (λ x. x ≡ w) (matching event_type tenant hooks)
    → IsOf w event_type tenant r
    → IsReceived hooks event_type tenant r
unfolding matching
matching-receives w event_type tenant hooks r s of =
    let inner =
      Some-keep (λ x. matches x event_type && in_scope x tenant) w (keep (λ x. x.enabled) hooks)
        s in
    let outer = Some-keep (λ x. x.enabled) w hooks inner.0 in
    (w, outer.0, of.0, of.1, ground (arith, inner.1), scoped w tenant (ground (arith, inner.1)))

rows_of-map :
    {A : Type 0} (P : DeliveryRow → Type 0) (f : A → Run) (xs : List A)
    → ((x : A) → Some (λ y. y ≡ x) xs → All P (f x).rows)
    → All P (rows_of (map f xs))
rows_of-map P f [] h = tt
rows_of-map P f (x ∷ xs) h =
    All-append P (f x).rows (rows_of (map f xs)) (h x (here refl))
      (rows_of-map P f xs (λ y s. h y (there s)))

-- Every row that dispatching an event adds is of a webhook of the table that is enabled, subscribed to
-- the event's type or to all, and of all tenants or of the tenant of the event: the events of a tenant
-- reach no webhook of another.
pub dispatch-IsReceived :
    (ip_address : Text → Option Address) (is_private : Address → Bool)
    (urlparse : Text → Option ParsedUrl) (resolve_host : Text → List Text) (d : WebhookDispatcher)
    (replies : WebhookRecord → ℕ → Reply) (event_type : String) (tenant : Option String)
    (hooks : List WebhookRecord)
    → All (IsReceived hooks event_type tenant) (
        rows_of
          (dispatch ip_address is_private urlparse resolve_host d replies event_type tenant hooks))
unfolding dispatch
dispatch-IsReceived ip_address is_private urlparse resolve_host d replies event_type tenant hooks =
    rows_of-map (IsReceived hooks event_type tenant) _ (matching event_type tenant hooks) (λ w s.
      All-weaken _ (λ r of. matching-receives w event_type tenant hooks r s of)
        (deliver-IsOf w event_type tenant d
          (validate_url ip_address is_private urlparse resolve_host w.url policy none none)
          (replies w)))
