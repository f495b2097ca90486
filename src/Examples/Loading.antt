-- ===== src/Examples/Loading.antt =====
-- Loading a bundle that stands one directory deeper, and finding it.
use events_service.Base.{
  List, All, ◌<◌, [], ◌∷◌, true, false, String, Option, none, some, if◌then◌else◌, ◌&&◌, ◌==◌,
  string_eq, ◌≡◌, refl, arith, length,
}
use events_service.FilePath.{FilePath, join, split, enter}
use events_service.Archive.{FileSystem, Node, directory, file, is_directory, TarInput}
use events_service.Engine.{empty_annotation}
use events_service.Bundle.{Bundle}
use events_service.Bundle.Load.{LoadEnv, PackageJson, bundle_of, load}
use events_service.Bundle.Load.Laws.{PlainNames}
use events_service.Bundle.Discover.Ends.{StaysShallow, discover-ends}
use events_service.Archive.{unpack_tar}
use events_service.Archive.Zip.{unpack_zip}
use events_service.Bundle.Discover.{
  DiscoverEnv, discover, unpack, zip_format, tar_format, no_archive,
}
use events_service.Archive.Zip.Outside.{Above}
use events_service.Bundle.Discover.Outside.{Harmless, discover-outside}
use events_service.FilePath.{is_under}
use events_service.FilePath.Laws.{NoDotDot}
use events_service.Archive.Zip.{ZipFile, ZipInput}

-- What stands in /b/pkg.
abbrev entry : String → Option Node
entry name =
    if name == "package.json"
    then some (file (1 ∷ []))
    else if name == "index.js"
    then some (file (2 ∷ []))
    else none

abbrev pub disk : FileSystem
disk [] = none
disk (x ∷ []) = if x == "b" then some directory else none
disk (x ∷ y ∷ []) = if x == "b" && y == "pkg" then some directory else none
disk (x ∷ y ∷ z ∷ []) = if x == "b" && y == "pkg" then entry z else none
disk (x ∷ y ∷ z ∷ t ∷ p) = none

abbrev package_json : PackageJson
package_json = record {
  main = "";
  version = "1.0.0";
  license = "MIT";
  automation = empty_annotation;
}

abbrev env : LoadEnv
env = record {
  read_dir = λ p. some ("pkg" ∷ []);
  readable = λ p. true;
  parse = λ content. some package_json;
  text_of = λ content. "operation()";
  path_text = λ p. "/b/pkg";
}

env-PlainNames : PlainNames env
unfolding join split enter
env-PlainNames p name h = let same : "pkg" ≡ name = cc in rw (← same) refl

disk_depth : (p : FilePath) → is_directory disk p ≡ true → length p < 3
disk_depth [] h = omega arith
disk_depth (x ∷ []) h = omega arith
disk_depth (x ∷ y ∷ []) h = omega arith
disk_depth (x ∷ y ∷ z ∷ []) h = absurd (ground arith)
disk_depth (x ∷ y ∷ z ∷ t ∷ p) h = cc

abbrev pub loaded : Bundle
loaded = bundle_of env ("b" ∷ "pkg" ∷ []) package_json "index.js" (2 ∷ [])

abbrev no_zip : ZipInput
no_zip = record { opens = false; temp_dir = none; files = none }

abbrev no_tar : TarInput
no_tar = record {
  opens = false;
  gzip_opens = false;
  temp_dir = none;
  headers = [];
  ends_in_eof = false;
}

-- The directory /b with the bundle, a text and an archive that does not open.
abbrev pub discover_env : DiscoverEnv
discover_env = record {
  read_dir = λ p. some ("pkg" ∷ "notes.txt" ∷ "old.tar.gz" ∷ []);
  loading = λ fs. env;
  zip_input = λ fs p. no_zip;
  tar_input = λ fs p. no_tar;
}

discover_env-StaysShallow : StaysShallow 3 discover_env
unfolding unpack unpack_zip unpack_tar
discover_env-StaysShallow fs p zip_format deep = deep
discover_env-StaysShallow fs p (tar_format is_gzip) deep = deep
discover_env-StaysShallow fs p no_archive deep = deep

discover-ends_example :
    (r : FileSystem × Option (List Bundle)) × (discover discover_env 4 disk ("b" ∷ []) ≡ some r)
discover-ends_example =
    discover-ends discover_env 3 4 (omega arith) (λ fs. env-PlainNames) discover_env-StaysShallow
      disk ("b" ∷ []) disk_depth

abbrev one_file : List ZipFile
one_file =
    record { name = "index.js"; content = some (record { bytes = 2 ∷ []; complete = true }) } ∷ []

abbrev zip_archive : ZipInput
zip_archive = record { opens = true; temp_dir = some ("tmp" ∷ []); files = some one_file }

-- The directory /b with the bundle and an archive that is unpacked in /tmp.
abbrev zip_env : DiscoverEnv
zip_env = record discover_env {
  read_dir = λ p. some ("pkg" ∷ "old.zip" ∷ []);
  zip_input = λ fs p. zip_archive;
}

one_file-NoDotDot : All (λ f. NoDotDot f.name) one_file
unfolding split
one_file-NoDotDot = ((λ e. cc, tt), tt)

top_level-Above : (fs : FileSystem) → Above fs ("tmp" ∷ [])
top_level-Above fs [] rest x nonempty e = absurd (nonempty refl)
top_level-Above fs (y ∷ []) rest x nonempty e = cc
top_level-Above fs (y ∷ z ∷ p) rest x nonempty e = cc

zip_env-Harmless : Harmless zip_env ("b" ∷ "pkg" ∷ [])
unfolding is_under
zip_env-Harmless = record {
  zip_names = λ fs p. one_file-NoDotDot;
  zip_dir =
      λ fs p dest e. let same : "tmp" ∷ [] ≡ dest = cc e in rw (← same) (top_level-Above fs, refl);
  tar_names = λ fs p. tt;
  tar_dir = λ fs p dest e. cc;
}

zip_found : (r : FileSystem × Option (List Bundle)) × (discover zip_env 4 disk ("b" ∷ []) ≡ some r)
unfolding discover load unpack_zip
zip_found = (_, refl)

discover-outside_example : zip_found.0.0 ("b" ∷ "pkg" ∷ []) ≡ some directory
discover-outside_example =
    discover-outside zip_env ("b" ∷ "pkg" ∷ []) zip_env-Harmless 4 ("b" ∷ []) disk zip_found.0.0
      zip_found.0.1 zip_found.1
