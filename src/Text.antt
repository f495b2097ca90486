-- ===== src/Text.antt =====
-- The functions of Go's package strings that the program calls on whole texts.
pub mod Laws
use Prim.Native.String.{[], ◌∷◌}
use events_service.Base.{String, code, Option, none, some, ◌==◌, nat_eq, string_eq, if◌then◌else◌}

-- What follows a prefix, if the text begins with it.
pub after_prefix : String → String → Option String
after_prefix [] s = some s
after_prefix (c ∷ p) [] = none
after_prefix (c ∷ p) (d ∷ s) = if code c == code d then after_prefix p s else none

abbrev pub option_or {ℓ} : {A : Type ℓ} → Option A → A → A
option_or none d = d
option_or (some a) d = a

-- strings.TrimPrefix: takes the prefix off once, if it is there.
unfoldable pub trim_prefix : String → String → String
unfolding after_prefix
trim_prefix s p = option_or (after_prefix p s) s

-- strings.TrimSuffix: takes the suffix off once, if it is there.
unfoldable pub trim_suffix : String → String → String
trim_suffix [] p = []
trim_suffix (c ∷ s) p = let rest = trim_suffix s p in if (c ∷ s) == p then [] else c ∷ rest
