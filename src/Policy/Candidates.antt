-- ===== src/Policy/Candidates.antt =====
-- What `cost_first_route` of gateway/policy.py decides.
use ctrl_gateway.Prelude.{
  ℕ, ◌≤◌, ◌≡◌, refl, sym, subst, ◌⊎◌, inl, inr, String, true, false, Option, none, some, List, [],
  ◌∷◌, arith, All, Some, here, there, ltb, if◌then◌else◌, Bool-cases, Option-cases,
}
use ctrl_gateway.Prelude.Members.{IsIn}
use ctrl_gateway.Prelude.Dict.{Dict}
use ctrl_gateway.Policy.Inputs.{Endpoint, Tier, Config, RequestContext, endpoints_for_tier}
use ctrl_gateway.Policy.{cheaper, is_skipped, is_considered, best_of, candidates_of}

pub All-Some {ℓ κ} :
    {A : Type ℓ} (P : A → Type κ) (x : A) (xs : List A) → All P xs → Some (λ y. y ≡ x) xs → P x
All-Some P x [] h s = elim s [ ]
All-Some P x (y ∷ ys) h (here e) = subst P e h.0
All-Some P x (y ∷ ys) h (there s) = All-Some P x ys h.1 s

pub least_of_Some {ℓ} :
    {A : Type ℓ} (cost : A → ℕ) (n m : ℕ) (xs : List A)
    → All (λ x. n ≤ cost x) xs
    → Some (λ x. cost x ≤ m) xs
    → n ≤ m
least_of_Some cost n m [] h s = elim s [ ]
least_of_Some cost n m (x ∷ xs) h (here e) = omega (arith, h.0, e)
least_of_Some cost n m (x ∷ xs) h (there s) = least_of_Some cost n m xs h.1 s

abbrev pub IsAll : {C : Type 0} → (C → Type 0) → Option C → Type 0
IsAll P none = Unit
IsAll P (some c) = P c

module _ {C : Type 0} (cost : C → ℕ) where
  cheaper-IsAll :
      (P : C → Type 0) (b : Option C) (c : C) → IsAll P b → P c → IsAll P (cheaper cost b c)
  unfolding cheaper
  cheaper-IsAll P none c hb hc = hc
  cheaper-IsAll P (some b) c hb hc = elim (Bool-cases (ltb (cost c) (cost b))) [
    | inl e ↦ rw e hc
    | inr e ↦ rw e hb
  ]

  abbrev pub AtMost : ℕ → Option C → Type 0
  AtMost m b = (c : C) × (b ≡ some c) × (cost c ≤ m)

  cheaper-AtMost :
      (m : ℕ) (b : Option C) (c : C) → AtMost m b ⊎ (cost c ≤ m) → AtMost m (cheaper cost b c)
  unfolding cheaper
  cheaper-AtMost m none c (inr le) = (c, refl, le)
  cheaper-AtMost m none c (inl (x, e, le)) = ground arith
  cheaper-AtMost m (some b) c (inr le) = elim (Bool-cases (ltb (cost c) (cost b))) [
    | inl e ↦ rw e (c, refl, le)
    | inr e ↦ rw e (b, refl, ground arith)
  ]
  cheaper-AtMost m (some b) c (inl (x, q, le)) =
      let held : cost b ≤ m = subst (IsAll (λ y. cost y ≤ m)) (sym q) le in
      elim (Bool-cases (ltb (cost c) (cost b))) [
        | inl e ↦ rw e (c, refl, ground arith)
        | inr e ↦ rw e (b, refl, held)
      ]

module _ (sigmoid : ℕ → ℕ → ℕ) (conf : Config) (ctx : RequestContext) (states : Dict String) where
  module _ {C : Type 0} (cost : C → ℕ) (candidate : Tier → Endpoint → C) where
    -- A property of every candidate that is built holds of those that are kept.
    module _ (P : C → Type 0) where
      best_of-IsAll :
          (t : Tier) (b : Option C) (es : List Endpoint)
          → IsAll P b
          → ((e : Endpoint)
              → IsIn e es
              → is_considered sigmoid conf ctx states t e ≡ true
              → P (candidate t e))
          → IsAll P (best_of sigmoid conf ctx states cost candidate t b es)
      unfolding best_of
      best_of-IsAll t b [] start step = start
      best_of-IsAll t b (e ∷ es) start step =
          elim (Bool-cases (is_considered sigmoid conf ctx states t e)) [
            | inl y ↦ rw y (
                best_of-IsAll t (cheaper cost b (candidate t e)) es
                  (cheaper-IsAll cost P b (candidate t e) start (step e (here refl) y))
                  (λ f i. step f (there i)))
            | inr n ↦ rw n (best_of-IsAll t b es start (λ f i. step f (there i)))
          ]

      pub All-candidates_of :
          (ts : List Tier)
          → ((t : Tier) (e : Endpoint)
              → IsIn t ts
              → is_skipped sigmoid conf ctx states t ≡ false
              → IsIn e (endpoints_for_tier conf t.name)
              → is_considered sigmoid conf ctx states t e ≡ true
              → P (candidate t e))
          → All P (candidates_of sigmoid conf ctx states cost candidate ts)
      unfolding candidates_of
      All-candidates_of [] step = tt
      All-candidates_of (t ∷ ts) step = elim (Bool-cases (is_skipped sigmoid conf ctx states t)) [
        | inl y ↦ rw y (All-candidates_of ts (λ u e i. step u e (there i)))
        | inr n ↦
            elim (Option-cases (
              best_of sigmoid conf ctx states cost candidate t none
                (endpoints_for_tier conf t.name))) [
                  | inl e ↦ rw (n, e) (All-candidates_of ts (λ u f i. step u f (there i)))
                  | inr (c, e) ↦
                      rw (n, e)
                        (
                          subst (IsAll P) e (
                              best_of-IsAll t none (endpoints_for_tier conf t.name) tt
                                (λ x. step t x (here refl) n)),
                          All-candidates_of ts (λ u f i. step u f (there i)),
                        )
                ]
      ]

    best_of-kept :
        (m : ℕ) (t : Tier) (b : Option C) (es : List Endpoint)
        → AtMost cost m b
        → AtMost cost m (best_of sigmoid conf ctx states cost candidate t b es)
    unfolding best_of
    best_of-kept m t b [] h = h
    best_of-kept m t b (e ∷ es) h = elim (Bool-cases (is_considered sigmoid conf ctx states t e)) [
      | inl y ↦ rw y (
          best_of-kept m t (cheaper cost b (candidate t e)) es
            (cheaper-AtMost cost m b (candidate t e) (inl h)))
      | inr n ↦ rw n (best_of-kept m t b es h)
    ]

    best_of-AtMost :
        (t : Tier) (b : Option C) (es : List Endpoint) (x : Endpoint)
        → Some (λ y. y ≡ x) es
        → is_considered sigmoid conf ctx states t x ≡ true
        → AtMost cost (cost (candidate t x)) (best_of sigmoid conf ctx states cost candidate t b es)
    unfolding best_of
    best_of-AtMost t b [] x s h = elim s [ ]
    best_of-AtMost t b (e ∷ es) x (here q) h =
        subst
          (λ z.
            AtMost cost (cost (candidate t x))
              (best_of sigmoid conf ctx states cost candidate t b (z ∷ es)))
          (sym q)
          (rw h (
            best_of-kept (cost (candidate t x)) t (cheaper cost b (candidate t x)) es
              (cheaper-AtMost cost (cost (candidate t x)) b (candidate t x) (inr (omega arith)))))
    best_of-AtMost t b (e ∷ es) x (there s) h =
        best_of-AtMost t
          (if is_considered sigmoid conf ctx states t e then cheaper cost b (candidate t e) else b)
          es x s h

    -- Some candidate costs at most as much as any endpoint that was considered.
    pub candidate_at_most :
        (ts : List Tier) (t : Tier) (x : Endpoint)
        → Some (λ y. y ≡ t) ts
        → is_skipped sigmoid conf ctx states t ≡ false
        → Some (λ y. y ≡ x) (endpoints_for_tier conf t.name)
        → is_considered sigmoid conf ctx states t x ≡ true
        → Some
            (λ c. cost c ≤ cost (candidate t x))
            (candidates_of sigmoid conf ctx states cost candidate ts)
    unfolding candidates_of
    candidate_at_most [] t x r n s h = elim r [ ]
    candidate_at_most (u ∷ us) t x (here q) n s h =
        subst
          (λ z.
            Some (λ c. cost c ≤ cost (candidate t x))
              (candidates_of sigmoid conf ctx states cost candidate (z ∷ us)))
          (sym q)
          (let found = best_of-AtMost t none (endpoints_for_tier conf t.name) x s h in
            rw (n, found.1) (here found.2))
    candidate_at_most (u ∷ us) t x (there r) n s h =
        let rest = candidate_at_most us t x r n s h in
        elim (Bool-cases (is_skipped sigmoid conf ctx states u)) [
          | inl y ↦ rw y rest
          | inr z ↦
              elim (Option-cases (
                best_of sigmoid conf ctx states cost candidate u none
                  (endpoints_for_tier conf u.name))) [
                    | inl e ↦ rw (z, e) rest
                    | inr (c, e) ↦ rw (z, e) (there rest)
                  ]
        ]
