-- ===== src/Bundle/Discover.antt =====
-- internal/automation/bundle/bundle.go, Discover: the bundles below a directory, as directories or
-- as archives, which are unpacked first. Unpacking changes the file system.
pub mod Laws
pub mod Ends
pub mod Outside
use Prim.Native.Char.{Char}
use Prim.Native.String.{[] as empty_text, ◌∷◌ as cons_text}
use events_service.Base.{
  ℕ, List, [], ◌∷◌, ◌++◌, map, Bool, true, false, String, Option, none, some, if◌then◌else◌, ◌&&◌,
  ◌==◌, nat_eq, string_eq, code,
}
use events_service.FilePath.{FilePath, join}
use events_service.Archive.{FileSystem, is_directory, TarInput, unpack_tar}
use events_service.Archive.Zip.{ZipInput, unpack_zip}
use events_service.Bundle.{Bundle}
use events_service.Bundle.Load.{LoadEnv, Loaded, ok, err, load}

-- filepath.Ext and what stands before it
unfoldable pub ext : String → String
ext empty_text = ""
ext (cons_text c s) =
    let later = ext s in
    if later == "" then (if code c == b'.' then cons_text c s else "") else later

unfoldable pub stem : String → String
unfolding ext
stem empty_text = ""
stem (cons_text c s) =
    let rest = stem s in if ext s == "" && code c == b'.' then "" else cons_text c rest

pub data Format : Type 0 where
  zip_format : Format
  tar_format : Bool → Format
  no_archive : Format

-- The switch on the extension.
unfoldable pub format_of : String → Format
unfolding ext stem
format_of name =
    if ext name == ".zip"
    then zip_format
    else if ext name == ".gz"
    then (if ext (stem name) == ".tar" then tar_format true else no_archive)
    else if ext name == ".tar"
    then tar_format false
    else no_archive

-- What Discover takes from other packages, in each state of the file system.
pub record DiscoverEnv : Type 0 where
  pub read_dir : FilePath → Option (List String)
  pub loading : FileSystem → LoadEnv
  pub zip_input : FileSystem → FilePath → ZipInput
  pub tar_input : FileSystem → FilePath → TarInput

unfoldable pub unpack : DiscoverEnv → FileSystem → FilePath → Format → FileSystem × Option FilePath
unfolding unpack_zip unpack_tar
unpack env fs path zip_format = unpack_zip (env.zip_input fs path) fs
unpack env fs path (tar_format is_gzip) = unpack_tar is_gzip (env.tar_input fs path) fs
unpack env fs path no_archive = (fs, none)

-- What a call of Load adds to the result; an error is logged.
abbrev pub loaded_bundles : FileSystem → Option Loaded → Option (FileSystem × List Bundle)
loaded_bundles fs none = none
loaded_bundles fs (some (ok b)) = some (fs, b ∷ [])
loaded_bundles fs (some (err e)) = some (fs, [])

abbrev pub load_target :
    DiscoverEnv → ℕ → FileSystem × Option FilePath → Option (FileSystem × List Bundle)
load_target env fuel (fs, none) = some (fs, [])
load_target env fuel (fs, some dir) = loaded_bundles fs (load (env.loading fs) fuel fs dir)

-- One round of the loop, for an entry and whether it is a directory; the fuel is that of Load.
unfoldable pub discover_entry :
    DiscoverEnv → ℕ → FilePath → FileSystem → String × Bool → Option (FileSystem × List Bundle)
unfolding unpack format_of join
discover_entry env fuel root fs (name, true) =
    loaded_bundles fs (load (env.loading fs) fuel fs (join root name))
discover_entry env fuel root fs (name, false) =
    load_target env fuel (unpack env fs (join root name) (format_of name))

-- The loop over the entries.
unfoldable pub discover_entries :
    DiscoverEnv
    → ℕ
    → FilePath
    → FileSystem
    → List (String × Bool)
    → Option (FileSystem × List Bundle)
unfolding discover_entry
discover_entries env fuel root fs [] = some (fs, [])
discover_entries env fuel root fs (e ∷ es) = elim (discover_entry env fuel root fs e) [
  | none ↦ none
  | some (fs', found) ↦ elim (discover_entries env fuel root fs' es) [
    | none ↦ none
    | some (fs'', more) ↦ some (fs'', found ++ more)
  ]
]

-- The entries as os.ReadDir gives them, before anything is unpacked.
abbrev pub entries_of : FileSystem → FilePath → List String → List (String × Bool)
entries_of fs root [] = []
entries_of fs root (name ∷ names) =
    (name, is_directory fs (join root name)) ∷ entries_of fs root names

-- Discover, by whether os.ReadDir gives the entries.
unfoldable pub discover :
    DiscoverEnv → ℕ → FileSystem → FilePath → Option (FileSystem × Option (List Bundle))
unfolding discover_entries join
discover env fuel fs root = elim (env.read_dir root) [
  | none ↦ some (fs, none)
  | some names ↦ elim (discover_entries env fuel root fs (entries_of fs root names)) [
    | none ↦ none
    | some (fs', found) ↦ some (fs', some found)
  ]
]
