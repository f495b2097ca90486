-- ===== src/Archive.antt =====
-- internal/automation/bundle/unpack.go: unpacking bundle archives into a temporary directory. The
-- readers of archive/tar, archive/zip and compress/gzip yield the entries; the file system is a
-- function from rooted paths.
pub mod Tar
pub mod Escape
pub mod Zip
use events_service.Base.{
  ℕ, List, [], ◌∷◌, ◌++◌, Bool, true, false, String, Option, none, some, if◌then◌else◌, ◌&&◌, not,
}
use events_service.FilePath.{FilePath, join, parent, path_eqb, is_under}

pub data Node : Type 0 where
  directory : Node
  file : List ℕ → Node

abbrev pub FileSystem : Type 0
FileSystem = FilePath → Option Node

abbrev pub put_node : FileSystem → FilePath → Node → FileSystem
put_node fs p n q = if path_eqb p q then some n else fs q

-- os.RemoveAll
abbrev pub remove_all : FileSystem → FilePath → FileSystem
remove_all fs p q = if is_under p q then none else fs q

-- The root is a directory.
abbrev pub is_directory : FileSystem → FilePath → Bool
is_directory fs [] = true
is_directory fs (x ∷ p) = elim (fs (x ∷ p)) [
  | none ↦ false
  | some n ↦ elim n [ directory ↦ true | file content ↦ false ]
]

-- os.Mkdir: an error if the path is there or its parent is no directory
unfoldable pub mkdir : FileSystem → FilePath → FileSystem × Bool
unfolding parent path_eqb
mkdir fs p = elim (fs p) [
  | some n ↦ (fs, false)
  | none ↦ if is_directory fs (parent p) then (put_node fs p directory, true) else (fs, false)
]

-- What an archive entry holds: the bytes that io.Copy writes, and whether it ends without error.
pub record Content : Type 0 where
  pub bytes : List ℕ
  pub complete : Bool

-- writeFile: os.Create wants a directory above and no directory at the path; what was copied
-- stays also when the copy fails
unfoldable pub write_file : FileSystem → FilePath → Content → FileSystem × Bool
unfolding parent path_eqb
write_file fs p c =
    if is_directory fs p
    then (fs, false)
    else if is_directory fs (parent p)
    then (put_node fs p (file c.bytes), c.complete)
    else (fs, false)

pub data Typeflag : Type 0 where
  type_dir : Typeflag
  type_reg : Content → Typeflag
  type_other : Typeflag

-- tar.Header, with the content behind it
pub record Header : Type 0 where
  pub name : String
  pub typeflag : Typeflag

-- One round of the loop of unpackTar, and whether it goes on.
unfoldable pub unpack_entry : FileSystem → FilePath → Header → FileSystem × Bool
unfolding mkdir write_file join
unpack_entry fs dest h = elim h.typeflag [
  | type_dir ↦ mkdir fs (join dest h.name)
  | type_reg c ↦ write_file fs (join dest h.name) c
  | type_other ↦ (fs, false)
]

-- The loop over tarReader.Next; the last argument is whether the archive ends in io.EOF rather
-- than in another error.
unfoldable pub unpack_entries : FileSystem → FilePath → List Header → Bool → FileSystem × Bool
unfolding unpack_entry
unpack_entries fs dest [] eof = (fs, eof)
unpack_entries fs dest (h ∷ hs) eof =
    let r = unpack_entry fs dest h in
    let rest = unpack_entries r.0 dest hs eof in if r.1 then rest else (r.0, false)

-- What the environment gives unpackTar: whether the archive and its gzip header open, the new
-- directory of os.MkdirTemp, and the entries.
pub record TarInput : Type 0 where
  pub opens : Bool
  pub gzip_opens : Bool
  pub temp_dir : Option FilePath
  pub headers : List Header
  pub ends_in_eof : Bool

abbrev pub keep_or_remove : FilePath → FileSystem × Bool → FileSystem × Option FilePath
keep_or_remove dest (fs, true) = (fs, some dest)
keep_or_remove dest (fs, false) = (remove_all fs dest, none)

-- unpackTar; `none` is an error
unfoldable pub unpack_tar : Bool → TarInput → FileSystem → FileSystem × Option FilePath
unfolding unpack_entries path_eqb is_under
unpack_tar is_gzip t fs =
    if t.opens
    then if is_gzip && not t.gzip_opens then (fs, none) else (elim t.temp_dir [
      | none ↦ (fs, none)
      | some dest ↦
          keep_or_remove dest
            (unpack_entries (put_node fs dest directory) dest t.headers t.ends_in_eof)
    ])
    else (fs, none)
