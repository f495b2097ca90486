-- ===== src/Bundle/Discover/Outside.antt =====
-- internal/automation/bundle/bundle.go with unpack.go: what Discover leaves as it was.
use events_service.Base.{
  ℕ, List, [], ◌∷◌, ◌++◌, Bool, true, false, String, Option, none, some, ◌≡◌, refl, sym, ◌∙◌, ap,
  arith, All, Option-cases, inl, inr,
}
use events_service.Text.{option_or}
use events_service.FilePath.{FilePath, is_under, join}
use events_service.FilePath.Laws.{NoDotDot}
use events_service.Archive.{FileSystem, unpack_tar}
use events_service.Archive.Tar.{unpack_tar-outside}
use events_service.Archive.Zip.{unpack_zip}
use events_service.Archive.Zip.Outside.{Above, unpack_zip-outside}
use events_service.Bundle.{Bundle}
use events_service.Bundle.Load.{Loaded, ok, err, load}
use events_service.Bundle.Discover.{
  DiscoverEnv, Format, zip_format, tar_format, no_archive, loaded_bundles, load_target,
  discover_entry, entries_of, discover_entries, discover, unpack, format_of,
}

-- Whatever archive is met, no name in it has "..", and the temporary directory for it is not above
-- q, while the directories above it are there.
pub record Harmless (env : DiscoverEnv) (q : FilePath) : Type 0 where
  pub zip_names :
      (fs : FileSystem) (p : FilePath)
      → All (λ f. NoDotDot f.name) (option_or (env.zip_input fs p).files [])
  pub zip_dir :
      (fs : FileSystem) (p dest : FilePath)
      → (env.zip_input fs p).temp_dir ≡ some dest
      → Above fs dest × (is_under dest q ≡ false)
  pub tar_names :
      (fs : FileSystem) (p : FilePath) → All (λ h. NoDotDot h.name) (env.tar_input fs p).headers
  pub tar_dir :
      (fs : FileSystem) (p dest : FilePath)
      → (env.tar_input fs p).temp_dir ≡ some dest
      → is_under dest q ≡ false

module _ (env : DiscoverEnv) (q : FilePath) (harmless : Harmless env q) where
  unpack-outside : (fs : FileSystem) (p : FilePath) (f : Format) → (unpack env fs p f).0 q ≡ fs q
  unfolding unpack
  unpack-outside fs p zip_format = elim (Option-cases (env.zip_input fs p).temp_dir) [
    | inl no_dir ↦ unfold unpack_zip in ground arith
    | inr (dest, e) ↦
        let (above, outside) = harmless.zip_dir fs p dest e in
        unpack_zip-outside (env.zip_input fs p) fs dest q e (harmless.zip_names fs p) above outside
  ]
  unpack-outside fs p (tar_format is_gzip) = elim (Option-cases (env.tar_input fs p).temp_dir) [
    | inl no_dir ↦ unfold unpack_tar in ground arith
    | inr (dest, e) ↦
        unpack_tar-outside is_gzip (env.tar_input fs p) fs dest q e (harmless.tar_names fs p)
          (harmless.tar_dir fs p dest e)
  ]
  unpack-outside fs p no_archive = refl

  loaded_bundles-same :
      (fs fs' : FileSystem) (l : Option Loaded) (bs : List Bundle)
      → loaded_bundles fs l ≡ some (fs', bs)
      → fs ≡ fs'
  loaded_bundles-same fs fs' none bs h = cc
  loaded_bundles-same fs fs' (some (ok b)) bs h = cc h
  loaded_bundles-same fs fs' (some (err e)) bs h = cc h

  load_target-same :
      (fuel : ℕ) (t : FileSystem × Option FilePath) (fs' : FileSystem) (bs : List Bundle)
      → load_target env fuel t ≡ some (fs', bs)
      → t.0 ≡ fs'
  load_target-same fuel (fs, none) fs' bs h = cc h
  load_target-same fuel (fs, some dir) fs' bs h =
      loaded_bundles-same fs fs' (load (env.loading fs) fuel fs dir) bs h

  discover_entry-outside :
      (fuel : ℕ) (root : FilePath) (fs fs' : FileSystem) (e : String × Bool) (bs : List Bundle)
      → discover_entry env fuel root fs e ≡ some (fs', bs)
      → fs' q ≡ fs q
  unfolding discover_entry
  discover_entry-outside fuel root fs fs' (name, true) bs h =
      ap (λ (x : FileSystem). x q)
        (sym (loaded_bundles-same fs fs' (load (env.loading fs) fuel fs (join root name)) bs h))
  discover_entry-outside fuel root fs fs' (name, false) bs h =
      let t = unpack env fs (join root name) (format_of name) in
      ap (λ (x : FileSystem). x q) (sym (load_target-same fuel t fs' bs h))
      ∙ unpack-outside fs (join root name) (format_of name)

  discover_entries-outside :
      (fuel : ℕ) (root : FilePath) (es : List (String × Bool)) (fs fs' : FileSystem)
      (bs : List Bundle)
      → discover_entries env fuel root fs es ≡ some (fs', bs)
      → fs' q ≡ fs q
  unfolding discover_entries
  discover_entries-outside fuel root [] fs fs' bs h =
      let same : fs ≡ fs' = cc h in ap (λ (x : FileSystem). x q) (sym same)
  discover_entries-outside fuel root (e ∷ es) fs fs' bs h =
      elim (Option-cases (discover_entry env fuel root fs e)) [
        | inl stop ↦ absurd (ground arith)
        | inr ((fs₁, found), first) ↦ elim (Option-cases (discover_entries env fuel root fs₁ es)) [
          | inl stop ↦ absurd (ground arith)
          | inr ((fs₂, more), rest) ↦
              let run : discover_entries env fuel root fs (e ∷ es) ≡ some (fs₂, found ++ more) =
                rw (discover_entries, first, rest) refl in
              let same : fs₂ ≡ fs' = cc (run, h) in
              ap (λ (x : FileSystem). x q) (sym same)
              ∙ discover_entries-outside fuel root es fs₁ fs₂ more rest
              ∙ discover_entry-outside fuel root fs fs₁ e found first
        ]
      ]

  -- If no archive in the scripts' directory has ".." in the names of its entries, Discover changes
  -- nothing outside the temporary directories that it makes for them, whether it can read them or
  -- not. (The directories above a temporary directory are there.)
  pub discover-outside :
      (fuel : ℕ) (root : FilePath) (fs fs' : FileSystem) (bs : Option (List Bundle))
      → discover env fuel fs root ≡ some (fs', bs)
      → fs' q ≡ fs q
  unfolding discover
  discover-outside fuel root fs fs' bs h = elim (Option-cases (env.read_dir root)) [
    | inl fails ↦
        let run : discover env fuel fs root ≡ some (fs, none) = rw (discover, fails) refl in
        let same : fs ≡ fs' = cc (run, h) in ap (λ (x : FileSystem). x q) (sym same)
    | inr (names, e) ↦
        elim (Option-cases (discover_entries env fuel root fs (entries_of fs root names))) [
          | inl stop ↦ absurd (ground arith)
          | inr ((fs₁, found), h₁) ↦
              let run : discover env fuel fs root ≡ some (fs₁, some found) =
                rw (discover, e, h₁) refl in
              let same : fs₁ ≡ fs' = cc (run, h) in
              ap (λ (x : FileSystem). x q) (sym same)
              ∙ discover_entries-outside fuel root (entries_of fs root names) fs fs₁ found h₁
        ]
  ]
