-- ===== src/Bundle/Discover/Ends.antt =====
-- internal/automation/bundle/bundle.go: that Discover ends.
use events_service.Base.{
  ℕ, ◌<◌, List, [], ◌∷◌, ◌++◌, Bool, true, false, String, Option, none, some, ◌≡◌, refl, ap, length,
  Option-cases, inl, inr,
}
use events_service.FilePath.{FilePath, join}
use events_service.Archive.{FileSystem, is_directory}
use events_service.Bundle.{Bundle}
use events_service.Bundle.Load.{Loaded, ok, err, load}
use events_service.Bundle.Load.Laws.{PlainNames, load-ends-anywhere}
use events_service.Bundle.Discover.{
  DiscoverEnv, Format, loaded_bundles, load_target, discover_entry, entries_of, discover_entries,
  discover, unpack, format_of,
}

-- No directory is nested n deep.
abbrev pub Shallow : ℕ → FileSystem → Type 0
Shallow n fs = (p : FilePath) → is_directory fs p ≡ true → length p < n

-- Unpacking an archive nests no directory n deep if none was.
abbrev pub StaysShallow : ℕ → DiscoverEnv → Type 0
StaysShallow n env =
    (fs : FileSystem) (p : FilePath) (f : Format) → Shallow n fs → Shallow n (unpack env fs p f).0

module _ (env : DiscoverEnv) (n fuel : ℕ) (enough : n < fuel)
    (plain : (fs : FileSystem) → PlainNames (env.loading fs)) (stays : StaysShallow n env) where
  loaded_bundles-ends :
      (fs : FileSystem) (path : FilePath)
      → Shallow n fs
      → (bs : List Bundle) × (loaded_bundles fs (load (env.loading fs) fuel fs path)
          ≡ some (fs, bs))
  loaded_bundles-ends fs path deep =
      let (r, ends) = load-ends-anywhere (env.loading fs) fuel fs path n (plain fs) deep enough in
      by_result r ends
    where
      by_result :
          (r : Loaded)
          → load (env.loading fs) fuel fs path ≡ some r
          → (bs : List Bundle) × (loaded_bundles fs (load (env.loading fs) fuel fs path)
              ≡ some (fs, bs))
      by_result (ok b) ends = (b ∷ [], ap (loaded_bundles fs) ends)
      by_result (err e) ends = ([], ap (loaded_bundles fs) ends)

  load_target-ends :
      (t : FileSystem × Option FilePath)
      → Shallow n t.0
      → (bs : List Bundle) × (load_target env fuel t ≡ some (t.0, bs))
  load_target-ends (fs, none) deep = ([], refl)
  load_target-ends (fs, some dir) deep = loaded_bundles-ends fs dir deep

  discover_entry-ends :
      (root : FilePath) (fs : FileSystem) (e : String × Bool)
      → Shallow n fs
      → (fs' : FileSystem) × (bs : List Bundle) × (discover_entry env fuel root fs e
          ≡ some (fs', bs))
        × Shallow n fs'
  unfolding discover_entry
  discover_entry-ends root fs (name, true) deep =
      let (bs, ends) = loaded_bundles-ends fs (join root name) deep in (fs, bs, ends, deep)
  discover_entry-ends root fs (name, false) deep =
      let t = unpack env fs (join root name) (format_of name) in
      let deep' = stays fs (join root name) (format_of name) deep in
      let (bs, ends) = load_target-ends t deep' in (t.0, bs, ends, deep')

  discover_entries-ends :
      (root : FilePath) (fs : FileSystem) (es : List (String × Bool))
      → Shallow n fs
      → (r : FileSystem × List Bundle) × (discover_entries env fuel root fs es ≡ some r)
  unfolding discover_entries
  discover_entries-ends root fs [] deep = ((fs, []), refl)
  discover_entries-ends root fs (e ∷ es) deep =
      let (fs', bs, first, deep') = discover_entry-ends root fs e deep in
      let ((fs'', more), rest) = discover_entries-ends root fs' es deep' in
      ((fs'', bs ++ more), rw (discover_entries, first, rest) refl)

  -- Discover ends, with an error or with bundles, whatever archives and directories it meets: if no
  -- directory is nested n deep, before the call or by unpacking an archive, n + 1 rounds of each call
  -- of Load are enough. (os.ReadDir gives plain names.)
  pub discover-ends :
      (fs : FileSystem) (root : FilePath)
      → Shallow n fs
      → (r : FileSystem × Option (List Bundle)) × (discover env fuel fs root ≡ some r)
  unfolding discover
  discover-ends fs root deep = elim (Option-cases (env.read_dir root)) [
    | inl fails ↦ ((fs, none), rw (discover, fails) refl)
    | inr (names, e) ↦
        let ((fs', found), ends) = discover_entries-ends root fs (entries_of fs root names) deep in
        ((fs', some found), rw (discover, e, ends) refl)
  ]
