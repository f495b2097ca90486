-- ===== src/FilePath.antt =====
-- Go's path/filepath and strings.Split as the program uses them. A rooted path is the list of its
-- elements from the root; filepath.Join cleans as it goes.
pub mod Laws
use Prim.Native.Char.{Char}
use Prim.Native.String.{[] as empty_text, ◌∷◌ as cons_text, ◌++◌ as append_text}
use events_service.Base.{
  ℕ, List, [], ◌∷◌, ◌++◌, Bool, true, false, ◌&&◌, String, code, ◌==◌, nat_eq, string_eq, ◌||◌,
  if◌then◌else◌, Option, none, some,
}

abbrev pub FilePath : Type 0
FilePath = List String

abbrev prepend : Char → List String → List String
prepend c [] = cons_text c "" ∷ []
prepend c (part ∷ parts) = cons_text c part ∷ parts

-- strings.Split by a separator of one character
unfoldable pub split : ℕ → String → List String
split sep empty_text = "" ∷ []
split sep (cons_text c s) =
    let parts = split sep s in if code c == sep then "" ∷ parts else prepend c parts

-- strings.Join
unfoldable pub join_parts : String → List String → String
join_parts sep [] = ""
join_parts sep (part ∷ []) = part
join_parts sep (part ∷ next ∷ parts) =
    append_text part (append_text sep (join_parts sep (next ∷ parts)))

-- The path without its last element; the root is its own parent.
unfoldable pub parent : FilePath → FilePath
parent [] = []
parent (x ∷ []) = []
parent (x ∷ y ∷ p) = x ∷ parent (y ∷ p)

-- One element of a joined name.
unfoldable pub enter : FilePath → String → FilePath
unfolding parent
enter p part =
    if part == "" || part == "." then p else if part == ".." then parent p else p ++ part ∷ []

unfoldable pub enter_all : FilePath → List String → FilePath
unfolding enter
enter_all p [] = p
enter_all p (part ∷ parts) = enter_all (enter p part) parts

-- filepath.Join of a rooted path and a name
unfoldable pub join : FilePath → String → FilePath
unfolding enter_all split
join p name = enter_all p (split b'/' name)

-- Whether two paths are the same, and whether one is at or below the other.
unfoldable pub path_eqb : FilePath → FilePath → Bool
path_eqb [] [] = true
path_eqb [] (y ∷ q) = false
path_eqb (x ∷ p) [] = false
path_eqb (x ∷ p) (y ∷ q) = x == y && path_eqb p q

unfoldable pub is_under : FilePath → FilePath → Bool
is_under [] p = true
is_under (b ∷ base) [] = false
is_under (b ∷ base) (x ∷ p) = b == x && is_under base p
