-- ===== src/Archive/Zip/Outside.antt =====
-- internal/automation/bundle/unpack.go, unpackZip: what it leaves outside its temporary directory.
use mathlib.Core.List.{append_assoc, append-nil}
use events_service.Base.{
  List, [], ◌∷◌, ◌++◌, Bool, true, false, String, Option, none, some, ◌≡◌, ◌≢◌, refl, sym, ◌∙◌, ap,
  arith, All, Bool-cases, Option-cases, ◌⊎◌, inl, inr, string_eq,
}
use events_service.Text.{option_or}
use events_service.FilePath.{FilePath, join, parent, is_under}
use events_service.FilePath.Laws.{Under, NoDotDot, join-Under}
use events_service.Archive.{FileSystem, Node, directory, file, put_node, Content}
use events_service.Archive.Tar.{put_node-outside, write_file-outside}
use events_service.Archive.Zip.{
  mkdir_all_from, mkdir_all, ends_in_slash, ZipFile, write_opened, unzip_entry, unzip_entries,
  ZipInput, unpack_zip,
}

-- Every directory above a path is there.
abbrev pub Above : FileSystem → FilePath → Type 0
Above fs dest =
    (p rest : FilePath) (x : String) → p ≢ [] → p ++ x ∷ rest ≡ dest → fs p ≡ some directory

-- Of two paths to the same place, one goes through the other.
prefix-cases :
    (a a' d d' : FilePath)
    → a ++ a' ≡ d ++ d'
    → Under d a ⊎ ((x : String) × (rest : FilePath) × (a ++ x ∷ rest ≡ d))
prefix-cases a a' [] d' e = inl (a, refl)
prefix-cases [] a' (y ∷ d) d' e = inr (y, d, refl)
prefix-cases (x ∷ a) a' (y ∷ d) d' e =
    let head : x ≡ y = cc e in
    let tail : a ++ a' ≡ d ++ d' = cc e in
    elim (prefix-cases a a' d d' tail) [
      | inl (rest, u) ↦ inl (rest, rw (head, u) refl)
      | inr (z, rest, u) ↦ inr (z, rest, rw (head, u) refl)
    ]

-- What is above a path is not below it.
is_under-above : (p : FilePath) (x : String) (rest : FilePath) → is_under (p ++ x ∷ rest) p ≡ false
unfolding is_under
is_under-above [] x rest = refl
is_under-above (y ∷ p) x rest = ground (arith, is_under-above p x rest)

-- Each step of os.MkdirAll is at or below dest, or over a directory that is there.
abbrev Steps : FilePath → FileSystem → FilePath → List String → Type 0
Steps dest fs p [] = Unit
Steps dest fs p (x ∷ xs) =
    (Under dest (p ++ x ∷ []) ⊎ (fs (p ++ x ∷ []) ≡ some directory))
    × Steps dest fs (p ++ x ∷ []) xs

Steps-put_node :
    (dest n : FilePath) (fs : FileSystem) (p : FilePath) (xs : List String)
    → Steps dest fs p xs
    → Steps dest (put_node fs n directory) p xs
Steps-put_node dest n fs p [] s = tt
Steps-put_node dest n fs p (x ∷ xs) (inl u, s) =
    (inl u, Steps-put_node dest n fs (p ++ x ∷ []) xs s)
Steps-put_node dest n fs p (x ∷ xs) (inr there, s) =
    (inr (ground (arith, there)), Steps-put_node dest n fs (p ++ x ∷ []) xs s)

Steps-Above :
    (dest rest more : FilePath) (fs : FileSystem) (p : FilePath) (xs : List String)
    → Above fs dest
    → (p ++ xs) ++ more ≡ dest ++ rest
    → Steps dest fs p xs
Steps-Above dest rest more fs p [] above e = tt
Steps-Above dest rest more fs p (x ∷ xs) above e =
    let next = p ++ x ∷ [] in
    let whole : (next ++ xs) ++ more ≡ dest ++ rest =
      ap (λ l. l ++ more) (append_assoc p (x ∷ []) xs) ∙ e in
    (
      elim (prefix-cases next (xs ++ more) dest rest (sym (append_assoc next xs more) ∙ whole)) [
        | inl u ↦ inl u
        | inr (y, tail, u) ↦ inr (above next tail y (nonempty p) u)
      ],
      Steps-Above dest rest more fs next xs above whole,
    )
  where
    nonempty : (p : FilePath) → p ++ x ∷ [] ≢ []
    nonempty [] = λ h. cc
    nonempty (y ∷ p) = λ h. cc

parent-append : (p : FilePath) → (more : FilePath) × (parent p ++ more ≡ p)
unfolding parent
parent-append [] = ([], refl)
parent-append (x ∷ []) = (x ∷ [], refl)
parent-append (x ∷ y ∷ p) = let (more, e) = parent-append (y ∷ p) in (more, ap (◌∷◌ x) e)

module _ (dest q : FilePath) (outside : is_under dest q ≡ false) where
  mkdir_all_from-outside :
      (fs : FileSystem) (p : FilePath) (xs : List String)
      → Steps dest fs p xs
      → (mkdir_all_from fs p xs).0 q ≡ fs q
  unfolding mkdir_all_from
  mkdir_all_from-outside fs p [] s = refl
  mkdir_all_from-outside fs p (x ∷ xs) (here, s) = elim (Option-cases (fs (p ++ x ∷ []))) [
    | inl missing ↦
        rw (mkdir_all_from, missing)
          (mkdir_all_from-outside (put_node fs (p ++ x ∷ []) directory) (p ++ x ∷ []) xs
              (Steps-put_node dest (p ++ x ∷ []) fs (p ++ x ∷ []) xs s)
            ∙ put_node-outside dest q outside fs (p ++ x ∷ []) directory (inside here missing))
    | inr (n, e) ↦ over n e (mkdir_all_from-outside fs (p ++ x ∷ []) xs s)
  ]
    where
      inside :
          Under dest (p ++ x ∷ []) ⊎ (fs (p ++ x ∷ []) ≡ some directory)
          → fs (p ++ x ∷ []) ≡ none
          → Under dest (p ++ x ∷ [])
      inside (inl u) missing = u
      inside (inr there) missing = absurd (ground arith)

      over :
          (n : Node)
          → fs (p ++ x ∷ []) ≡ some n
          → (mkdir_all_from fs (p ++ x ∷ []) xs).0 q ≡ fs q
          → (mkdir_all_from fs p (x ∷ xs)).0 q ≡ fs q
      over directory e later = rw (mkdir_all_from, e) later
      over (file c) e later = rw (mkdir_all_from, e) refl

  mkdir_all-outside :
      (fs : FileSystem) (p more rest : FilePath)
      → Above fs dest
      → p ++ more ≡ dest ++ rest
      → (mkdir_all fs p).0 q ≡ fs q
  unfolding mkdir_all
  mkdir_all-outside fs p more rest above e =
      mkdir_all_from-outside fs [] p (Steps-Above dest rest more fs [] p above e)

  write_opened-outside :
      (r : FileSystem × Bool) (p : FilePath) (c : Option Content)
      → Under dest p
      → (write_opened r p c).0 q ≡ r.0 q
  write_opened-outside (fs, false) p c u = refl
  write_opened-outside (fs, true) p none u = refl
  write_opened-outside (fs, true) p (some c) u = write_file-outside dest q outside fs p c u

  unzip_entry-outside :
      (fs : FileSystem) (f : ZipFile)
      → Above fs dest
      → NoDotDot f.name
      → (unzip_entry fs dest f).0 q ≡ fs q
  unfolding unzip_entry
  unzip_entry-outside fs f above n =
      let t = join dest f.name in
      let (rest, u) = join-Under dest f.name n in
      let (last, v) = parent-append t in
      elim (Bool-cases (ends_in_slash f.name)) [
        | inl slash ↦
            rw (unzip_entry, slash) (mkdir_all-outside fs t [] rest above (append-nil t ∙ u))
        | inr plain ↦
            rw (unzip_entry, plain)
              (write_opened-outside (mkdir_all fs (parent t)) t f.content (rest, u)
                ∙ mkdir_all-outside fs (parent t) last rest above (v ∙ u))
      ]

Above-unzip_entry :
    (dest : FilePath) (fs : FileSystem) (f : ZipFile)
    → Above fs dest
    → NoDotDot f.name
    → Above (unzip_entry fs dest f).0 dest
Above-unzip_entry dest fs f above n p rest x some_path e =
    unzip_entry-outside dest p (rw (← e) (is_under-above p x rest)) fs f above n
    ∙ above p rest x some_path e

unzip_entries-outside :
    (dest q : FilePath) (fs : FileSystem) (files : List ZipFile)
    → is_under dest q ≡ false
    → Above fs dest
    → All (λ f. NoDotDot f.name) files
    → (unzip_entries fs dest files).0 q ≡ fs q
unfolding unzip_entries
unzip_entries-outside dest q fs [] outside above ns = refl
unzip_entries-outside dest q fs (f ∷ files) outside above (n, ns) = ground (
  arith,
  unzip_entry-outside dest q outside fs f above n,
  unzip_entries-outside dest q (unzip_entry fs dest f).0 files outside
      (Above-unzip_entry dest fs f above n) ns,
)

Above-put_node :
    (dest : FilePath) (fs : FileSystem) → Above fs dest → Above (put_node fs dest directory) dest
Above-put_node dest fs above p rest x some_path e =
    put_node-outside dest p (rw (← e) (is_under-above p x rest)) fs dest directory
      ([], sym (append-nil dest))
    ∙ above p rest x some_path e

-- If no entry of the archive has ".." in its name, unpackZip changes nothing outside the temporary
-- directory that it made, whether it succeeds or fails, though it makes the directories above each
-- file as they are needed. (The directories above the temporary directory are there.)
pub unpack_zip-outside :
    (z : ZipInput) (fs : FileSystem) (dest q : FilePath)
    → z.temp_dir ≡ some dest
    → All (λ f. NoDotDot f.name) (option_or z.files [])
    → Above fs dest
    → is_under dest q ≡ false
    → (unpack_zip z fs).0 q ≡ fs q
unfolding unpack_zip
unpack_zip-outside z fs dest q temp names above outside =
    let made = put_node-outside dest q outside fs dest directory ([], sym (append-nil dest)) in
    elim (Option-cases z.files) [
      | inl no_reader ↦ ground (arith, made)
      | inr (files, found) ↦ ground (
        arith,
        made,
        unzip_entries-outside dest q (put_node fs dest directory) files outside
            (Above-put_node dest fs above) (rw found at names),
      )
    ]
