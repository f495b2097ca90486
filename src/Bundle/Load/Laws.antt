-- ===== src/Bundle/Load/Laws.antt =====
-- That Load ends, and what the bundle that it returns holds.
use events_service.Base.{
  ℕ, zero, suc, ◌+◌, ◌≤◌, ◌<◌, List, [], ◌∷◌, ◌++◌, true, String, Option, none, some, string_eq,
  eq_iff, ◌≡◌, refl, sym, arith, length, length-append, Option-cases, Bool-cases, inl, inr, ◌⊎◌,
  ◌∙◌, ap,
}
use events_service.FilePath.{FilePath, join}
use events_service.Archive.{FileSystem, is_directory}
use events_service.Bundle.{Bundle}
use events_service.Bundle.Load.{
  LoadEnv, PackageJson, Loaded, ok, err, unreadable, invalid_bundle, ReadFile, contents, not_exist,
  read_error, read_file, entry_point, bundle_of, with_script, load_package, only_directory, load,
}

-- The names that os.ReadDir gives are single elements of a path.
abbrev pub PlainNames : LoadEnv → Type 0
PlainNames env =
    (p : FilePath) (name : String)
    → env.read_dir p ≡ some (name ∷ [])
    → join p name ≡ p ++ name ∷ []

ReadFile-cases :
    (r : ReadFile) → ((c : List ℕ) × (r ≡ contents c)) ⊎ ((r ≡ not_exist) ⊎ (r ≡ read_error))
ReadFile-cases (contents c) = inl (c, refl)
ReadFile-cases not_exist = inr (inl refl)
ReadFile-cases read_error = inr (inr refl)

-- Load goes on with a directory that stands one level below.
only_directory-below :
    (fs : FileSystem) (path next : FilePath) (names : Option (List String))
    → ((name : String) → names ≡ some (name ∷ []) → join path name ≡ path ++ name ∷ [])
    → only_directory fs path names ≡ some next
    → (is_directory fs next ≡ true) × (length next ≡ length path + 1)
unfolding only_directory
only_directory-below fs path next none plain h = cc
only_directory-below fs path next (some []) plain h = cc
only_directory-below fs path next (some (name ∷ other ∷ names)) plain h = cc
only_directory-below fs path next (some (name ∷ [])) plain h =
    elim (Bool-cases (is_directory fs (join path name))) [
      | inl is_dir ↦
          let same : join path name ≡ next = cc (rw is_dir at h) in
          let below = plain name refl in
          (rw (← same) is_dir, ap length (sym same ∙ below) ∙ length-append path (name ∷ []))
      | inr other ↦ let bad = rw other at h in cc
    ]

-- One round of Load ends if it ends from every directory one level below.
load-round :
    (env : LoadEnv) (fuel : ℕ) (fs : FileSystem) (path : FilePath)
    → PlainNames env
    → ((next : FilePath)
        → is_directory fs next ≡ true
        → length next ≡ length path + 1
        → (r : Loaded) × (load env fuel fs next ≡ some r))
    → (r : Loaded) × (load env (suc fuel) fs path ≡ some r)
unfolding load
load-round env fuel fs path plain below =
    elim (ReadFile-cases (read_file env fs (join path "package.json"))) [
      | inl (c, e) ↦ (load_package env fs path c, rw (load, e) refl)
      | inr (inr e) ↦ (err unreadable, rw (load, e) refl)
      | inr (inl e) ↦ elim (Option-cases (only_directory fs path (env.read_dir path))) [
        | inl stop ↦ (err invalid_bundle, rw (load, e, stop) refl)
        | inr (next, go) ↦
            let (dir', more) =
              only_directory-below fs path next (env.read_dir path) (plain path) go in
            let (r, h) = below next dir' more in (r, rw (load, e, go) h)
      ]
    ]

-- If no directory of the file system is nested n deep, Load of a directory ends within n rounds
-- less the depth of the directory. (os.ReadDir gives plain names.)
pub load-ends :
    (env : LoadEnv) (fuel : ℕ) (fs : FileSystem) (path : FilePath) (n : ℕ)
    → PlainNames env
    → ((p : FilePath) → is_directory fs p ≡ true → length p < n)
    → is_directory fs path ≡ true
    → n ≤ length path + fuel
    → (r : Loaded) × (load env fuel fs path ≡ some r)
unfolding load
load-ends env zero fs path n plain deep dir enough = absurd (omega (arith, deep path dir))
load-ends env (suc fuel) fs path n plain deep dir enough =
    load-round env fuel fs path plain
      λ next dir' more. load-ends env fuel fs next n plain deep dir' (omega (arith, more, enough))

-- So it does from any path, directory or not, with one round more than directories are nested deep.
pub load-ends-anywhere :
    (env : LoadEnv) (fuel : ℕ) (fs : FileSystem) (path : FilePath) (n : ℕ)
    → PlainNames env
    → ((p : FilePath) → is_directory fs p ≡ true → length p < n)
    → n < fuel
    → (r : Loaded) × (load env fuel fs path ≡ some r)
unfolding load
load-ends-anywhere env zero fs path n plain deep enough = absurd (omega (arith, enough))
load-ends-anywhere env (suc fuel) fs path n plain deep enough =
    load-round env fuel fs path plain
      λ next dir more. load-ends env fuel fs next n plain deep dir (omega (arith, more, enough))

-- What a loaded bundle holds: the fields of a package.json and the script of its entry point, in
-- one directory, and neither an engine nor logs, its mutex free.
pub record LoadedFrom (env : LoadEnv) (fs : FileSystem) (b : Bundle) : Type 0 where
  pub dir : FilePath
  pub content : List ℕ
  pub script : List ℕ
  pub manifest : PackageJson
  pub found : read_file env fs (join dir "package.json") ≡ contents content
  pub parsed : env.parse content ≡ some manifest
  pub read : read_file env fs (join dir b.main) ≡ contents script
  pub main : (b.main ≡ manifest.main) ⊎ ((manifest.main ≡ "") × (b.main ≡ "index.js"))
  pub bundle : b ≡ bundle_of env dir manifest b.main script

entry_point-main :
    (fs : FileSystem) (path : FilePath) (main m : String)
    → entry_point fs path main ≡ some m
    → (m ≡ main) ⊎ ((main ≡ "") × (m ≡ "index.js"))
unfolding entry_point
entry_point-main fs path main m h = ground (arith, eq_iff main "")

with_script-ok :
    (env : LoadEnv) (path : FilePath) (p : PackageJson) (main : String) (r : ReadFile) (b : Bundle)
    → with_script env path p main r ≡ ok b
    → (script : List ℕ) × (r ≡ contents script) × (b ≡ bundle_of env path p main script)
with_script-ok env path p main (contents script) b h = (script, refl, ground arith)
with_script-ok env path p main not_exist b h = cc
with_script-ok env path p main read_error b h = cc

load_package-LoadedFrom :
    (env : LoadEnv) (fs : FileSystem) (path : FilePath) (content : List ℕ) (b : Bundle)
    → read_file env fs (join path "package.json") ≡ contents content
    → load_package env fs path content ≡ ok b
    → LoadedFrom env fs b
unfolding load_package
load_package-LoadedFrom env fs path content b e h = elim (Option-cases (env.parse content)) [
  | inl bad ↦ let h' = rw (load_package, bad) at h in cc
  | inr (p, parsed) ↦ elim (Option-cases (entry_point fs path p.main)) [
    | inl bad ↦ let h' = rw (load_package, parsed, bad) at h in cc
    | inr (main, entry) ↦
        let (script, read, same) =
          with_script-ok env path p main (read_file env fs (join path main)) b
            (rw (load_package, parsed, entry) at h) in
        record {
          dir = path;
          content = content;
          script = script;
          manifest = p;
          found = e;
          parsed = parsed;
          read = rw same read;
          main = rw same (entry_point-main fs path p.main main entry);
          bundle = rw same refl;
        }
  ]
]

-- A bundle that Load returns holds what a package.json and the script of its entry point say, which
-- is index.js where none is named; it has no engine and no logs, and its mutex is free.
pub load-LoadedFrom :
    (env : LoadEnv) (fuel : ℕ) (fs : FileSystem) (path : FilePath) (b : Bundle)
    → load env fuel fs path ≡ some (ok b)
    → LoadedFrom env fs b
unfolding load
load-LoadedFrom env zero fs path b h = cc
load-LoadedFrom env (suc fuel) fs path b h =
    elim (ReadFile-cases (read_file env fs (join path "package.json"))) [
      | inl (c, e) ↦ load_package-LoadedFrom env fs path c b e (ground arith)
      | inr (inr e) ↦ absurd (ground arith)
      | inr (inl e) ↦ elim (Option-cases (only_directory fs path (env.read_dir path))) [
        | inl stop ↦ absurd (ground arith)
        | inr (next, go) ↦ load-LoadedFrom env fuel fs next b (ground arith)
      ]
    ]
