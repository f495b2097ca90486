-- ===== src/Text/Laws.antt =====
-- What strings.TrimPrefix does to a text with and without the prefix.
use Prim.Native.String.{[], ◌∷◌, ◌++◌}
use text.Mathlib.TextEquality.{Char-path}
use text.Mathlib.TextLemmas.{nil-append, cons-append}
use events_service.Base.{
  String, code, ◌≡◌, refl, some, ap, ◌==◌, nat_eq, arith, inl, inr, Bool-cases, nat_eqb_iff,
}
use events_service.Text.{after_prefix, trim_prefix}

pub after_prefix-append : (p s : String) → after_prefix p (p ++ s) ≡ some s
unfolding after_prefix
after_prefix-append [] s = rw nil-append
after_prefix-append (c ∷ p) s =
    rw (cons-append, (nat_eqb_iff (code c) (code c)).1 refl) (after_prefix-append p s)

pub after_prefix-eq-some : (p s : String) {r : String} → after_prefix p s ≡ some r → s ≡ p ++ r
unfolding after_prefix
after_prefix-eq-some [] s h = rw nil-append (ground arith)
after_prefix-eq-some (c ∷ p) [] h = cc
after_prefix-eq-some (c ∷ p) (d ∷ s) {r} h = elim (Bool-cases (code c == code d)) [
  | inl same ↦
      rw (cons-append, Char-path c d ((nat_eqb_iff _ _).0 same))
        (ap (◌∷◌ d) (after_prefix-eq-some p s (rw same at h)))
  | inr other ↦ ground arith
]

pub trim_prefix-append : (p s : String) → trim_prefix (p ++ s) p ≡ s
unfolding trim_prefix
trim_prefix-append p s = rw after_prefix-append
