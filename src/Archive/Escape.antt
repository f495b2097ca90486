-- ===== src/Archive/Escape.antt =====
-- internal/automation/bundle/unpack.go: an entry whose name leads out of the directory.
use mathlib.Core.List.{append-nil}
use events_service.Base.{[], ◌∷◌, Bool, true, false, some, ◌≡◌, refl, arith}
use events_service.FilePath.{FilePath, join, parent, path_eqb, is_under}
use events_service.FilePath.Laws.{path_eqb_iff, is_under-append}
use events_service.Archive.{
  FileSystem, directory, file, put_node, write_file, is_directory, Header, Content, type_reg,
  unpack_entry, unpack_entries, unpack_tar,
}

-- The new directory takes no directory away.
is_directory-put_node :
    (fs : FileSystem) (dest p : FilePath)
    → is_directory fs p ≡ true
    → is_directory (put_node fs dest directory) p ≡ true
is_directory-put_node fs dest [] h = refl
is_directory-put_node fs dest (x ∷ p) h = ground arith

is_directory-put_node_outside :
    (fs : FileSystem) (dest p : FilePath)
    → is_under dest p ≡ false
    → is_directory fs p ≡ false
    → is_directory (put_node fs dest directory) p ≡ false
is_directory-put_node_outside fs dest [] out h = h
is_directory-put_node_outside fs dest (x ∷ p) out h =
    ground (arith, path_eqb_iff dest (x ∷ p), is_under-append dest [], append-nil dest)

path_eqb_refl : (p : FilePath) → path_eqb p p ≡ true
path_eqb_refl p = (path_eqb_iff p p).1 refl

-- An uncompressed tar archive whose only entry is a regular file with a name that leads to a place outside the
-- temporary directory writes that file there, if the directory of that place exists; and the file
-- stays also when the archive then turns out broken and unpackTar fails.
pub unpack_tar-escape :
    (fs : FileSystem) (dest : FilePath) (h : Header) (c : Content) (eof : Bool)
    → h.typeflag ≡ type_reg c
    → is_under dest (join dest h.name) ≡ false
    → is_directory fs (join dest h.name) ≡ false
    → is_directory fs (parent (join dest h.name)) ≡ true
    → (unpack_tar false
          (record {
            opens = true;
            gzip_opens = false;
            temp_dir = some dest;
            headers = h ∷ [];
            ends_in_eof = eof;
          })
          fs).0
        (join dest h.name)
      ≡ some (file c.bytes)
unfolding unpack_tar unpack_entries unpack_entry write_file
unpack_tar-escape fs dest h c eof reg out nodir above = ground (
  arith,
  is_directory-put_node fs dest (parent (join dest h.name)) above,
  is_directory-put_node_outside fs dest (join dest h.name) out nodir,
  path_eqb_refl (join dest h.name),
)
