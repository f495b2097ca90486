-- ===== src/Files/Below.antt =====
-- internal/automation/modules/fs/fs.go: what scripts can see of the disk.
use events_service.Base.{
  ℕ, List, [], ◌∷◌, String, none, some, ◌==◌, string_eq, ◌≡◌, refl, sym, ◌∙◌, arith, Bool-cases,
  inl, inr, All, true, ◌≢◌, eq_iff,
}
use mathlib.Core.List.{append-nil}
use events_service.Base.Try.{returned, Try-cases}
use events_service.FilePath.{FilePath, split, join, enter, enter_all}
use events_service.FilePath.Laws.{Under, join-Under}
use events_service.Files.{
  all_plain, Disk, full_name, below, valid_path, read_file, read_dir, root_of,
}
use events_service.Base.{done}
use events_service.Modules.{Registry}
use events_service.Engine.{
  Engine, EngineOption, Config, AutomationAnnotation, with_console, with_base_directory,
  with_automation_config, new_engine,
}
use events_service.Engine.Options.{new_engine-last, last_of, base_of}

-- Two disks agree at a path and below it.
pub record SameBelow (dir : FilePath) (d e : Disk) : Type 0 where
  pub nodes : (p : FilePath) → Under dir p → d.nodes p ≡ e.nodes p
  pub names : (p : FilePath) → Under dir p → d.names p ≡ e.names p
  pub readable : (p : FilePath) → Under dir p → d.readable p ≡ e.readable p

all_plain-All : (parts : List String) → all_plain parts ≡ true → All (λ part. part ≢ "..") parts
all_plain-All [] h = tt
all_plain-All (part ∷ parts) h =
    (λ up. ground (arith, eq_iff part ".."), all_plain-All parts (ground arith))

-- A name that fs.ValidPath takes does not lead out of the directory.
below-Under : (dir : FilePath) (name : String) → valid_path name ≡ true → Under dir (below dir name)
unfolding below valid_path
below-Under dir name valid = elim (Bool-cases (name == ".")) [
  | inl here ↦
      let same = (eq_iff name ".").0 here in
      rw same (unfold join enter_all enter split in ([], sym (append-nil dir)))
  | inr deeper ↦ join-Under dir name (all_plain-All (split b'/' name) (ground arith))
]

full_name-Under :
    (dir : FilePath) (name : String) (p : FilePath)
    → full_name (some dir) name ≡ returned p
    → Under dir p
unfolding full_name
full_name-Under dir name p h = elim (Bool-cases (valid_path name)) [
  | inl valid ↦
      let run : full_name (some dir) name ≡ returned (below dir name) =
        rw (full_name, valid) refl in
      let same : below dir name ≡ p = cc (run, h) in rw (← same) (below-Under dir name valid)
  | inr refused ↦ absurd (ground arith)
]

module _ (dir : FilePath) (d e : Disk) (same : SameBelow dir d e) where
  read_file-SameBelow : (name : String) → read_file d (some dir) name ≡ read_file e (some dir) name
  unfolding read_file
  read_file-SameBelow name = elim (Try-cases (full_name (some dir) name)) [
    | inl (x, refused) ↦ rw (read_file, refused) refl
    | inr (p, named) ↦
        let u = full_name-Under dir name p named in
        rw (read_file, named, same.nodes p u, same.readable p u) refl
  ]

  read_dir-SameBelow : (name : String) → read_dir d (some dir) name ≡ read_dir e (some dir) name
  unfolding read_dir
  read_dir-SameBelow name = elim (Try-cases (full_name (some dir) name)) [
    | inl (x, refused) ↦ rw (read_dir, refused) refl
    | inr (p, named) ↦
        let u = full_name-Under dir name p named in
        rw (read_dir, named, same.nodes p u, same.names p u) refl
  ]

-- What readFile and readDir of the module fs give the scripts of a bundle depends on nothing outside
-- the bundle's directory: on two disks without symbolic links that agree there and below, they give
-- the same for every name, whatever ".." or slashes it holds. (The engine is made with the directory of the bundle as its base directory and no
-- later option for it, and the module with no root of its own.)
pub scripts_read_below :
    (path_of : String → FilePath) (name dir : String) (cfg : Config) (printer : ℕ)
    (c : AutomationAnnotation) (opts : List EngineOption) (reg reg' : Registry) (engine : Engine)
    (d e : Disk) (file : String)
    → new_engine name cfg
        (with_console printer ∷ with_base_directory dir ∷ with_automation_config c ∷ opts)
        reg
      ≡ done (reg', some engine)
    → last_of base_of opts ≡ none
    → SameBelow (path_of dir) d e
    → (read_file d (root_of path_of none engine) file
        ≡ read_file e (root_of path_of none engine) file)
      × (read_dir d (root_of path_of none engine) file
          ≡ read_dir e (root_of path_of none engine) file)
unfolding root_of read_file read_dir full_name
scripts_read_below path_of name dir cfg printer c opts reg reg' engine d e file made last same =
    let based : engine.base_dir ≡ dir =
      (new_engine-last name dir cfg printer c opts reg reg' engine made).0 ∙ rw last refl in
    elim (Bool-cases (dir == "")) [
      | inl empty ↦ rw (based, empty) (refl, refl)
      | inr set ↦
          rw (based, set)
            (
              read_file-SameBelow (path_of dir) d e same file,
              read_dir-SameBelow (path_of dir) d e same file,
            )
    ]
