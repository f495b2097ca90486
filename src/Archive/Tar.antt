-- ===== src/Archive/Tar.antt =====
-- internal/automation/bundle/unpack.go: what unpackTar leaves in the file system.
use mathlib.Core.List.{append-nil}
use events_service.Base.{
  List, [], ◌∷◌, Bool, true, false, none, some, ◌≡◌, refl, sym, arith, All, Bool-cases, inl, inr,
}
use events_service.FilePath.{FilePath, join, path_eqb, is_under}
use events_service.FilePath.Laws.{Under, NoDotDot, join-Under, path_eqb_iff, is_under-append}
use events_service.Archive.{
  FileSystem, Node, directory, file, put_node, mkdir, write_file, Header, Content, type_dir,
  type_reg, type_other, unpack_entry, unpack_entries, TarInput, Typeflag, unpack_tar,
}

module _ (dest q : FilePath) (outside : is_under dest q ≡ false) where
  pub put_node-outside :
      (fs : FileSystem) (p : FilePath) (n : Node) → Under dest p → put_node fs p n q ≡ fs q
  put_node-outside fs p n (rest, e) = elim (Bool-cases (path_eqb p q)) [
    | inl same ↦ absurd (ground (arith, path_eqb_iff p q, is_under-append dest rest))
    | inr other ↦ rw other
  ]

  mkdir-outside : (fs : FileSystem) (p : FilePath) → Under dest p → (mkdir fs p).0 q ≡ fs q
  unfolding mkdir
  mkdir-outside fs p u = ground (arith, put_node-outside fs p directory u)

  pub write_file-outside :
      (fs : FileSystem) (p : FilePath) (c : Content) → Under dest p → (write_file fs p c).0 q ≡ fs q
  unfolding write_file
  write_file-outside fs p c u = ground (arith, put_node-outside fs p (file c.bytes) u)

  unpack_entry-outside :
      (fs : FileSystem) (h : Header) → NoDotDot h.name → (unpack_entry fs dest h).0 q ≡ fs q
  unfolding unpack_entry
  unpack_entry-outside fs h n = go h.typeflag refl
    where
      go : (t : Typeflag) → h.typeflag ≡ t → (unpack_entry fs dest h).0 q ≡ fs q
      go type_dir e =
          rw (e, unpack_entry) (mkdir-outside fs (join dest h.name) (join-Under dest h.name n))
      go (type_reg c) e =
          rw (e, unpack_entry)
            (write_file-outside fs (join dest h.name) c (join-Under dest h.name n))
      go type_other e = rw (e, unpack_entry)

  unpack_entries-outside :
      (fs : FileSystem) (hs : List Header) (eof : Bool)
      → All (λ h. NoDotDot h.name) hs
      → (unpack_entries fs dest hs eof).0 q ≡ fs q
  unfolding unpack_entries
  unpack_entries-outside fs [] eof n = refl
  unpack_entries-outside fs (h ∷ hs) eof (n, ns) = ground (
    arith,
    unpack_entry-outside fs h n,
    unpack_entries-outside (unpack_entry fs dest h).0 hs eof ns,
  )

  unpack_tar-inside :
      (is_gzip : Bool) (t : TarInput) (fs : FileSystem)
      → t.temp_dir ≡ some dest
      → All (λ h. NoDotDot h.name) t.headers
      → (unpack_tar is_gzip t fs).0 q ≡ fs q
  unfolding unpack_tar
  unpack_tar-inside is_gzip t fs e n = ground (
    arith,
    unpack_entries-outside (put_node fs dest directory) t.headers t.ends_in_eof n,
    put_node-outside fs dest directory ([], sym (append-nil dest)),
  )

-- If no entry of the archive has ".." in its name, unpackTar changes nothing outside the temporary
-- directory that it made, whether it succeeds or fails.
pub unpack_tar-outside :
    (is_gzip : Bool) (t : TarInput) (fs : FileSystem) (dest q : FilePath)
    → t.temp_dir ≡ some dest
    → All (λ h. NoDotDot h.name) t.headers
    → is_under dest q ≡ false
    → (unpack_tar is_gzip t fs).0 q ≡ fs q
unpack_tar-outside is_gzip t fs dest q e n outside =
    unpack_tar-inside dest q outside is_gzip t fs e n

-- If unpackTar fails, nothing is left of the directory that it made: where there was nothing at or
-- below it before, there is nothing afterwards.
pub unpack_tar-cleanup :
    (is_gzip : Bool) (t : TarInput) (fs : FileSystem) (dest q : FilePath)
    → t.temp_dir ≡ some dest
    → is_under dest q ≡ true
    → fs q ≡ none
    → (unpack_tar is_gzip t fs).1 ≡ none
    → (unpack_tar is_gzip t fs).0 q ≡ none
unfolding unpack_tar
unpack_tar-cleanup is_gzip t fs dest q e inside fresh failed = ground arith
