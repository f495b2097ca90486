-- ===== src/Archive/Zip.antt =====
-- internal/automation/bundle/unpack.go, unpackZip.
pub mod Laws
pub mod Outside
use Prim.Native.String.{[] as empty_text, ◌∷◌ as cons_text}
use events_service.Base.{
  ℕ, List, [], ◌∷◌, ◌++◌, Bool, true, false, String, Option, none, some, if◌then◌else◌, code, ◌==◌,
  nat_eq,
}
use events_service.FilePath.{FilePath, join, parent, path_eqb, is_under}
use events_service.Archive.{
  FileSystem, Node, directory, file, put_node, Content, write_file, is_directory, keep_or_remove,
}

-- The loop of os.MkdirAll over the elements that are left: a directory is passed, a missing one
-- is made, and a file is an error.
unfoldable pub mkdir_all_from : FileSystem → FilePath → List String → FileSystem × Bool
unfolding path_eqb
mkdir_all_from fs p [] = (fs, true)
mkdir_all_from fs p (x ∷ xs) =
    let next = p ++ x ∷ [] in
    let passed = mkdir_all_from fs next xs in
    let made = mkdir_all_from (put_node fs next directory) next xs in
    elim (fs next) [ none ↦ made | some n ↦ elim n [ directory ↦ passed | file c ↦ (fs, false) ] ]

-- os.MkdirAll
unfoldable pub mkdir_all : FileSystem → FilePath → FileSystem × Bool
unfolding mkdir_all_from
mkdir_all fs p = mkdir_all_from fs [] p

-- strings.HasSuffix(name, "/")
unfoldable pub ends_in_slash : String → Bool
ends_in_slash empty_text = false
ends_in_slash (cons_text c empty_text) = code c == b'/'
ends_in_slash (cons_text c (cons_text d s)) = ends_in_slash (cons_text d s)

-- zip.File: `none` if it does not open
pub record ZipFile : Type 0 where
  pub name : String
  pub content : Option Content

abbrev write_opened : FileSystem × Bool → FilePath → Option Content → FileSystem × Bool
write_opened (fs, false) p content = (fs, false)
write_opened (fs, true) p none = (fs, false)
write_opened (fs, true) p (some c) = write_file fs p c

-- One round of the loop of unpackZip, and whether it goes on.
unfoldable pub unzip_entry : FileSystem → FilePath → ZipFile → FileSystem × Bool
unfolding mkdir_all ends_in_slash join parent write_file
unzip_entry fs dest f =
    if ends_in_slash f.name
    then mkdir_all fs (join dest f.name)
    else write_opened (mkdir_all fs (parent (join dest f.name))) (join dest f.name) f.content

unfoldable pub unzip_entries : FileSystem → FilePath → List ZipFile → FileSystem × Bool
unfolding unzip_entry
unzip_entries fs dest [] = (fs, true)
unzip_entries fs dest (f ∷ files) =
    let r = unzip_entry fs dest f in
    let rest = unzip_entries r.0 dest files in if r.1 then rest else (r.0, false)

-- What the environment gives unpackZip: whether os.Open and Stat succeed, the directory of
-- os.MkdirTemp, and what zip.NewReader finds.
pub record ZipInput : Type 0 where
  pub opens : Bool
  pub temp_dir : Option FilePath
  pub files : Option (List ZipFile)

-- unpackZip; `none` is an error
unfoldable pub unpack_zip : ZipInput → FileSystem → FileSystem × Option FilePath
unfolding unzip_entries path_eqb is_under
unpack_zip z fs =
    if z.opens
    then (elim z.temp_dir [
      | none ↦ (fs, none)
      | some dest ↦
          let made = put_node fs dest directory in
          elim z.files [
            | none ↦ keep_or_remove dest (made, false)
            | some files ↦ keep_or_remove dest (unzip_entries made dest files)
          ]
    ])
    else (fs, none)
