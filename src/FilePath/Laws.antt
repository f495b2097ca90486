-- ===== src/FilePath/Laws.antt =====
-- Where filepath.Join can lead.
use mathlib.Core.List.{append_assoc, append-nil}
use events_service.Base.{
  List, [], ◌∷◌, ◌++◌, true, false, String, ◌==◌, string_eq, ◌||◌, eq_iff, ◌≡◌, ◌≢◌, refl, sym, ◌∙◌,
  ap, arith, All, Bool-cases, inl, inr, ◌↔◌,
}
use events_service.FilePath.{FilePath, split, enter, enter_all, join, path_eqb, is_under}

-- A path at or below another.
abbrev pub Under : FilePath → FilePath → Type 0
Under base p = (rest : FilePath) × (p ≡ base ++ rest)

-- A name none of whose elements is "..".
abbrev pub NoDotDot : String → Type 0
NoDotDot name = All (λ part. part ≢ "..") (split b'/' name)

enter-Under :
    (base p : FilePath) (part : String) → part ≢ ".." → Under base p → Under base (enter p part)
unfolding enter
enter-Under base p part h (rest, e) = elim (Bool-cases (part == "" || part == ".")) [
  | inl stay ↦ (rest, rw stay e)
  | inr go ↦ (
    rest ++ part ∷ [],
    rw go (rw (other h) (ap (λ q. q ++ part ∷ []) e ∙ append_assoc base rest (part ∷ []))),
  )
]
  where
    other : part ≢ ".." → (part == "..") ≡ false
    other h = ground (arith, eq_iff part "..")

enter_all-Under :
    (base p : FilePath) (parts : List String)
    → All (λ part. part ≢ "..") parts
    → Under base p
    → Under base (enter_all p parts)
unfolding enter_all
enter_all-Under base p [] h u = u
enter_all-Under base p (part ∷ parts) (h, hs) u =
    enter_all-Under base (enter p part) parts hs (enter-Under base p part h u)

-- A name without ".." stays below the path that it is joined to.
pub join-Under : (base : FilePath) (name : String) → NoDotDot name → Under base (join base name)
unfolding join
join-Under base name h = enter_all-Under base base (split b'/' name) h ([], sym (append-nil base))

pub path_eqb_iff : (p q : FilePath) → (path_eqb p q ≡ true) ↔ (p ≡ q)
unfolding path_eqb
path_eqb_iff [] [] = ground arith
path_eqb_iff [] (y ∷ q) = ground arith
path_eqb_iff (x ∷ p) [] = ground arith
path_eqb_iff (x ∷ p) (y ∷ q) = ground (arith, eq_iff x y, path_eqb_iff p q)

pub is_under-append : (base rest : FilePath) → is_under base (base ++ rest) ≡ true
unfolding is_under
is_under-append [] rest = refl
is_under-append (b ∷ base) rest = ground (arith, eq_iff b b, is_under-append base rest)
