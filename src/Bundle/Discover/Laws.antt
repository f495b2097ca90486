-- ===== src/Bundle/Discover/Laws.antt =====
-- That every bundle that Discover returns is one that Load read.
use events_service.Base.{
  ℕ, List, [], ◌∷◌, ◌++◌, Bool, true, false, String, Option, none, some, ◌≡◌, refl, arith, All,
  Option-cases, inl, inr,
}
use events_service.FilePath.{FilePath, join}
use events_service.Archive.{FileSystem}
use events_service.Bundle.{Bundle}
use events_service.Bundle.Load.{Loaded, ok, err, load}
use events_service.Bundle.Load.Laws.{LoadedFrom, load-LoadedFrom}
use events_service.Bundle.Discover.{
  DiscoverEnv, loaded_bundles, load_target, discover_entry, entries_of, discover_entries, discover,
  unpack, format_of,
}

-- The bundle was read from some state of the file system.
abbrev pub Found : DiscoverEnv → Bundle → Type 0
Found env b = (fs : FileSystem) × LoadedFrom (env.loading fs) fs b

pub All-append {ℓ κ} :
    {A : Type ℓ} (P : A → Type κ) (xs ys : List A) → All P xs → All P ys → All P (xs ++ ys)
All-append P [] ys h k = k
All-append P (x ∷ xs) ys (p, h) k = (p, All-append P xs ys h k)

loaded_bundles-Found :
    (env : DiscoverEnv) (fs fs' : FileSystem) (l : Option Loaded) (bs : List Bundle)
    → ((b : Bundle) → l ≡ some (ok b) → Found env b)
    → loaded_bundles fs l ≡ some (fs', bs)
    → All (Found env) bs
loaded_bundles-Found env fs fs' none bs found h = cc
loaded_bundles-Found env fs fs' (some (err e)) bs found h =
    let same : [] ≡ bs = cc in rw (← same) tt
loaded_bundles-Found env fs fs' (some (ok b)) bs found h =
    let same : b ∷ [] ≡ bs = cc in rw (← same) (found b refl, tt)

load_target-Found :
    (env : DiscoverEnv) (fuel : ℕ) (t : FileSystem × Option FilePath) (fs' : FileSystem)
    (bs : List Bundle)
    → load_target env fuel t ≡ some (fs', bs)
    → All (Found env) bs
load_target-Found env fuel (fs, none) fs' bs h = let same : [] ≡ bs = cc in rw (← same) tt
load_target-Found env fuel (fs, some dir) fs' bs h =
    loaded_bundles-Found env fs fs' (load (env.loading fs) fuel fs dir) bs
      (λ b e. (fs, load-LoadedFrom (env.loading fs) fuel fs dir b e)) h

discover_entry-Found :
    (env : DiscoverEnv) (fuel : ℕ) (root : FilePath) (fs fs' : FileSystem) (e : String × Bool)
    (bs : List Bundle)
    → discover_entry env fuel root fs e ≡ some (fs', bs)
    → All (Found env) bs
unfolding discover_entry
discover_entry-Found env fuel root fs fs' (name, true) bs h =
    loaded_bundles-Found env fs fs' (load (env.loading fs) fuel fs (join root name)) bs
      (λ b e. (fs, load-LoadedFrom (env.loading fs) fuel fs (join root name) b e)) h
discover_entry-Found env fuel root fs fs' (name, false) bs h =
    load_target-Found env fuel (unpack env fs (join root name) (format_of name)) fs' bs h

discover_entries-Found :
    (env : DiscoverEnv) (fuel : ℕ) (root : FilePath) (fs fs' : FileSystem)
    (es : List (String × Bool)) (bs : List Bundle)
    → discover_entries env fuel root fs es ≡ some (fs', bs)
    → All (Found env) bs
unfolding discover_entries
discover_entries-Found env fuel root fs fs' [] bs h = let same : [] ≡ bs = cc in rw (← same) tt
discover_entries-Found env fuel root fs fs' (e ∷ es) bs h =
    elim (Option-cases (discover_entry env fuel root fs e)) [
      | inl stop ↦ absurd (ground arith)
      | inr ((fs₁, found), first) ↦ elim (Option-cases (discover_entries env fuel root fs₁ es)) [
        | inl stop ↦ absurd (ground arith)
        | inr ((fs₂, more), rest) ↦
            let same : found ++ more ≡ bs = ground arith in
            rw (← same) (
              All-append (Found env) found more
                (discover_entry-Found env fuel root fs fs₁ e found first)
                (discover_entries-Found env fuel root fs₁ fs₂ es more rest))
      ]
    ]

-- Every bundle that Discover returns holds what a package.json and its entry point say in some
-- state of the file system, has no engine and no logs, and its mutex is free: an entry that cannot
-- be unpacked or loaded adds none.
pub discover-Found :
    (env : DiscoverEnv) (fuel : ℕ) (fs fs' : FileSystem) (root : FilePath) (bs : List Bundle)
    → discover env fuel fs root ≡ some (fs', some bs)
    → All (Found env) bs
unfolding discover
discover-Found env fuel fs fs' root bs h = elim (Option-cases (env.read_dir root)) [
  | inl stop ↦ absurd (ground arith)
  | inr (names, e) ↦
      elim (Option-cases (discover_entries env fuel root fs (entries_of fs root names))) [
        | inl stop ↦ absurd (ground arith)
        | inr ((fs₁, found), h') ↦
            let same : found ≡ bs = ground arith in
            rw (← same)
              (discover_entries-Found env fuel root fs fs₁ (entries_of fs root names) found h')
      ]
]
