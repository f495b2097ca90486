-- ===== src/Examples/Reading.antt =====
-- Reading files from a script at concrete inputs.
use events_service.Base.{List, [], ◌∷◌, true, false, String, none, some, if◌then◌else◌, ◌≡◌, refl}
use events_service.FilePath.{FilePath, is_under}
use events_service.FilePath.Laws.{is_under-append}
use events_service.Archive.{directory}
use events_service.Modules.{Registry}
use events_service.Engine.{
  Engine, Config, EngineOption, with_console, with_base_directory, with_automation_config,
  apply_options, default_engine, new_engine, empty_annotation,
}
use events_service.Engine.Options.{last_of}
use events_service.Files.{Disk, read_file, read_dir, root_of}
use events_service.Files.Below.{SameBelow, scripts_read_below}
use events_service.Examples.Loading.{disk}

abbrev bundle_dir : FilePath
bundle_dir = "b" ∷ "pkg" ∷ []

abbrev here : Disk
here = record {
  nodes = disk;
  names = λ p. "index.js" ∷ "bundle_dir.json" ∷ [];
  readable = λ p. true;
}

-- The same package on a disk where all else is a directory.
abbrev elsewhere : Disk
elsewhere = record here { nodes = λ p. if is_under bundle_dir p then disk p else some directory }

same_package : SameBelow bundle_dir here elsewhere
same_package = record {
  nodes = λ p u. rw (u.1, is_under-append bundle_dir u.0) refl;
  names = λ p u. refl;
  readable = λ p u. refl;
}

abbrev config : Config
config = record { type_server_url = ""; connect_services = [] }

abbrev options : List EngineOption
options =
    with_console 1 ∷ with_base_directory "/b/pkg" ∷ with_automation_config empty_annotation ∷ []

abbrev engine : Engine
engine = record (apply_options options (default_engine "reminders" config)) {
  loop_started = true;
  instances = [];
}

abbrev registry : Registry
registry = record { lock = record { readers = 0; writer = false }; modules = [] }

abbrev read_registry : Registry
read_registry = record registry { lock = record { readers = 2; writer = false } }

abbrev path_of : String → FilePath
path_of path = bundle_dir

scripts_read_below_example :
    (read_file here (root_of path_of none engine) "../../etc/passwd"
      ≡ read_file elsewhere (root_of path_of none engine) "../../etc/passwd")
    × (read_dir here (root_of path_of none engine) "../../etc/passwd"
        ≡ read_dir elsewhere (root_of path_of none engine) "../../etc/passwd")
unfolding new_engine last_of
scripts_read_below_example =
    scripts_read_below path_of "reminders" "/b/pkg" config 1 empty_annotation [] registry
      read_registry engine here elsewhere "../../etc/passwd" refl refl same_package
