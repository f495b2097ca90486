-- ===== src/Files.antt =====
-- internal/automation/modules/fs/fs.go: how scripts read files, by way of os.DirFS on the path of the
-- package (internal/automation/engine.go, PackagePath). Symbolic links are left out.
pub mod Below
use events_service.Base.{
  ℕ, List, [], ◌∷◌, ◌++◌, Bool, true, false, not, ◌&&◌, ◌||◌, String, Option, none, some,
  if◌then◌else◌, ◌==◌, string_eq,
}
use events_service.Base.Try.{Try, returned, thrown, ◌>>=◌, or_throw}
use events_service.FilePath.{FilePath, split, join}
use events_service.Archive.{FileSystem, Node, directory, file}
use events_service.Engine.{Engine}

-- The files, what os.ReadDir gives for directories, and which files can be read.
pub record Disk : Type 0 where
  pub nodes : FileSystem
  pub names : FilePath → List String
  pub readable : FilePath → Bool

pub data FileError : Type 0 where
  empty_root : FileError
  invalid_name : FileError
  not_exist : FileError
  not_a_file : FileError
  not_a_directory : FileError
  not_readable : FileError

abbrev pub plain_part : String → Bool
plain_part part = not (part == "" || part == "." || part == "..")

abbrev pub all_plain : List String → Bool
all_plain [] = true
all_plain (part ∷ parts) = plain_part part && all_plain parts

-- fs.ValidPath
unfoldable pub valid_path : String → Bool
unfolding split
valid_path name = name == "." || all_plain (split b'/' name)

-- What the operating system opens for a name after a directory and a slash: "." and empty elements
-- stay, and ".." goes up.
unfoldable pub below : FilePath → String → FilePath
unfolding join
below dir name = join dir name

-- os.DirFS; `none` stands for the empty text
unfoldable pub full_name : Option FilePath → String → Try FileError FilePath
unfolding valid_path below
full_name none name = thrown empty_root
full_name (some dir) name =
    if valid_path name then returned (below dir name) else thrown invalid_name

abbrev pub content : Bool → Node → Try FileError (List ℕ)
content can directory = thrown not_a_file
content can (file bytes) = if can then returned bytes else thrown not_readable

-- Instance.readFile: the bytes of the text, or what common.Throw throws
unfoldable pub read_file : Disk → Option FilePath → String → Try FileError (List ℕ)
unfolding full_name
read_file disk root name = do
  p ← full_name root name
  n ← or_throw (disk.nodes p) not_exist
  content (disk.readable p) n

abbrev pub entries : List String → Node → Try FileError (List String)
entries names directory = returned names
entries names (file bytes) = thrown not_a_directory

-- Instance.readDir
unfoldable pub read_dir : Disk → Option FilePath → String → Try FileError (List String)
unfolding full_name
read_dir disk root name = do
  p ← full_name root name
  n ← or_throw (disk.nodes p) not_exist
  entries (disk.names p) n

-- The root of NewModuleInstance: that of the module, or the path of the package. `path_of` reads a
-- text as a path.
unfoldable pub root_of : (String → FilePath) → Option FilePath → Engine → Option FilePath
root_of path_of (some root) e = some root
root_of path_of none e = if e.base_dir == "" then none else some (path_of e.base_dir)
