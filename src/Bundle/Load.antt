-- ===== src/Bundle/Load.antt =====
-- internal/automation/bundle/bundle.go, Load: from a directory to a bundle that is not yet
-- prepared. Packages os and json are other packages', and enter by what they give.
pub mod Laws
use events_service.Base.{
  ℕ, zero, suc, List, [], ◌∷◌, ◌++◌, Bool, true, false, String, Option, none, some, if◌then◌else◌,
  ◌==◌, string_eq,
}
use events_service.FilePath.{FilePath, join}
use events_service.Archive.{FileSystem, Node, directory, file, is_directory}
use events_service.Engine.{AutomationAnnotation}
use events_service.Bundle.{Bundle}

pub record PackageJson : Type 0 where
  pub main : String
  pub version : String
  pub license : String
  pub automation : AutomationAnnotation

-- What Load takes from other packages: the names of os.ReadDir, whether os.ReadFile reads a file
-- that is there, json.Unmarshal, and the texts of bytes and paths.
pub record LoadEnv : Type 0 where
  pub read_dir : FilePath → Option (List String)
  pub readable : FilePath → Bool
  pub parse : List ℕ → Option PackageJson
  pub text_of : List ℕ → String
  pub path_text : FilePath → String

-- os.ReadFile: os.ErrNotExist is told apart from every other error.
pub data ReadFile : Type 0 where
  contents : List ℕ → ReadFile
  not_exist : ReadFile
  read_error : ReadFile

-- Whether a file stands where the path wants a directory: from `p` on, with these elements left.
unfoldable pub meets_file : FileSystem → FilePath → List String → Bool
meets_file fs p [] = false
meets_file fs p (x ∷ xs) =
    let later = meets_file fs (p ++ x ∷ []) xs in
    elim (fs p) [ none ↦ later | some n ↦ elim n [ directory ↦ later | file c ↦ true ] ]

unfoldable pub read_file : LoadEnv → FileSystem → FilePath → ReadFile
unfolding meets_file
read_file env fs p = elim (fs p) [
  | none ↦ if meets_file fs [] p then read_error else not_exist
  | some n ↦ elim n [
    | directory ↦ read_error
    | file c ↦ if env.readable p then contents c else read_error
  ]
]

-- fileExists
unfoldable pub file_exists : FileSystem → FilePath → String → Bool
unfolding join
file_exists fs path name = elim (fs (join path name)) [
  | none ↦ false
  | some n ↦ elim n [ directory ↦ false | file c ↦ true ]
]

pub data LoadError : Type 0 where
  invalid_bundle : LoadError
  invalid_package_json : LoadError
  unreadable : LoadError

pub data Loaded : Type 0 where
  ok : Bundle → Loaded
  err : LoadError → Loaded

-- The entry point: index.js if none is named and it is there; a named one has to be there.
unfoldable pub entry_point : FileSystem → FilePath → String → Option String
unfolding file_exists
entry_point fs path main =
    if main == ""
    then (if file_exists fs path "index.js" then some "index.js" else some "")
    else if file_exists fs path main
    then some main
    else none

abbrev pub bundle_of : LoadEnv → FilePath → PackageJson → String → List ℕ → Bundle
bundle_of env path p main script = record {
  path = env.path_text path;
  main = main;
  version = p.version;
  license = p.license;
  script_content = env.text_of script;
  automation_config = p.automation;
  locked = false;
  runtime = none;
  logs = [];
}

abbrev pub with_script : LoadEnv → FilePath → PackageJson → String → ReadFile → Loaded
with_script env path p main (contents script) = ok (bundle_of env path p main script)
with_script env path p main not_exist = err unreadable
with_script env path p main read_error = err unreadable

-- Load, once package.json has been read.
unfoldable pub load_package : LoadEnv → FileSystem → FilePath → List ℕ → Loaded
unfolding entry_point read_file join
load_package env fs path content = elim (env.parse content) [
  | none ↦ err invalid_package_json
  | some p ↦ elim (entry_point fs path p.main) [
    | none ↦ err invalid_bundle
    | some main ↦ with_script env path p main (read_file env fs (join path main))
  ]
]

-- The one entry of a directory, if that is a directory.
unfoldable pub only_directory : FileSystem → FilePath → Option (List String) → Option FilePath
unfolding join
only_directory fs path none = none
only_directory fs path (some []) = none
only_directory fs path (some (name ∷ [])) =
    if is_directory fs (join path name) then some (join path name) else none
only_directory fs path (some (name ∷ other ∷ names)) = none

-- Load, for as many nested directories as there is fuel; `none` means that it ran out.
unfoldable pub load : LoadEnv → ℕ → FileSystem → FilePath → Option Loaded
unfolding read_file load_package only_directory join
load env zero fs path = none
load env (suc fuel) fs path = elim (read_file env fs (join path "package.json")) [
  | contents c ↦ some (load_package env fs path c)
  | read_error ↦ some (err unreadable)
  | not_exist ↦ elim (only_directory fs path (env.read_dir path)) [
    | none ↦ some (err invalid_bundle)
    | some next ↦ load env fuel fs next
  ]
]
