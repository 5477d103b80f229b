-- ===== src/Firewall/Patterns.antt =====
-- What a domain pattern matches.
use ctrl_gateway.Prelude.{
  ◌≡◌, ◌≢◌, ◌<◌, sym, ◌∙◌, ap, ◌↔◌, true, false, not, ◌&&◌, ◌||◌, [], ◌∷◌, ◌++◌, arith, inl, inr,
  Bool-cases, length, length-append, if◌then◌else◌,
}
use ctrl_gateway.Prelude.Text.{
  Text, codes, text_eq, text_eq_iff, starts_with, ends_with, ends_with→, ends_with-append, lower,
  strip,
}
use ctrl_gateway.Firewall.{domain_matches}

length-ne : (q s : Text) → 0 < length q → q ++ s ≢ s
length-ne q s h e = absurd (omega (arith, ap length e, length-append {0} q s))

-- A text ends with `dotted` and is not `dotted` exactly if something stands before it.
proper_suffix :
    (h dotted : Text)
    → ((ends_with h dotted && not (text_eq h dotted)) ≡ true)
      ↔ ((label : Text) × (0 < length label) × (h ≡ label ++ dotted))
proper_suffix h dotted = (λ both. before (ends_with→ h dotted (ground arith)) (ground arith), after)
  where
    before :
        (q : Text) × (h ≡ q ++ dotted)
        → text_eq h dotted ≡ false
        → (label : Text) × (0 < length label) × (h ≡ label ++ dotted)
    before ([], e) ne = absurd (cc ((text_eq_iff h dotted).1 e))
    before (x ∷ q, e) ne = (x ∷ q, omega arith, e)

    after :
        (label : Text) × (0 < length label) × (h ≡ label ++ dotted)
        → (ends_with h dotted && not (text_eq h dotted)) ≡ true
    after (label, some_label, e) =
        let ends : ends_with h dotted ≡ true = rw e (ends_with-append label dotted) in
        elim (Bool-cases (text_eq h dotted)) [
          | inl same ↦
              absurd (length-ne label dotted some_label (sym e ∙ (text_eq_iff h dotted).0 same))
          | inr other ↦ rw (ends, other)
        ]

not_empty : (label dotted h : Text) → 0 < length label → h ≡ [] → h ≡ label ++ dotted → ⊥
not_empty label dotted h some_label empty e =
    absurd (omega (arith, some_label, ap length (sym empty ∙ e), length-append {0} label dotted))

text_eq-nil : (s : Text) → s ≢ [] → text_eq s [] ≡ false
text_eq-nil s ne = elim (Bool-cases (text_eq s [])) [
  | inl e ↦ absurd (ne ((text_eq_iff s []).0 e))
  | inr e ↦ e
]

-- A wildcard pattern, trimmed and in lower case, matches exactly the hosts that have at least one
-- more label before its suffix; a pattern of the suffix alone it does not match.
pub wildcard_matches :
    (suffix host : Text)
    → suffix ≢ []
    → lower (strip (codes "*." ++ suffix)) ≡ codes "*." ++ suffix
    → (domain_matches (codes "*." ++ suffix) host ≡ true) ↔ (
        (label : Text) × (0 < length label) × (lower (strip host) ≡ label ++ (codes "." ++ suffix)))
unfolding domain_matches starts_with text_eq
wildcard_matches suffix host ne normal =
    rw (normal, text_eq-nil suffix ne) (at (lower (strip host)))
  where
    at :
        (h : Text)
        → ((if false || text_eq h []
              then false
              else ends_with h (codes "." ++ suffix) && not (text_eq h (codes "." ++ suffix)))
            ≡ true)
          ↔ ((label : Text) × (0 < length label) × (h ≡ label ++ (codes "." ++ suffix)))
    at h = elim (Bool-cases (text_eq h [])) [
      | inl empty ↦ rw empty (
        λ absurd_eq. absurd (cc),
        λ found. absurd (
            not_empty found.0 (codes "." ++ suffix) h found.1 ((text_eq_iff h []).0 empty) found.2),
      )
      | inr other ↦ rw other (proper_suffix h (codes "." ++ suffix))
    ]
