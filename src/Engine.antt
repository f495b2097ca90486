-- ===== src/Engine.antt =====
-- internal/automation/engine.go: an automation engine and its options. Runtimes, loaders,
-- discoverers and printers are other packages' values, known here by a number.
pub mod Options
pub mod Running
use Prim.Native.String.{◌++◌ as append_text}
use events_service.Base.{
  ℕ, List, [], ◌∷◌, ◌++◌, Bool, true, false, String, Option, none, some, Outcome, done, ◌>>=◌, ◌==◌,
  string_eq, if◌then◌else◌,
}
use events_service.Modules.{Registry, Instance, Enabled, enable_modules}

-- config.Config, as far as the engine reads it
pub record Config : Type 0 where
  pub type_server_url : String
  pub connect_services : List String

-- modules.AutomationAnnotation; a parameter's value is its JSON text
pub record AutomationAnnotation : Type 0 where
  pub connect_headers : List (String × String)
  pub parameters : List (String × String)
  pub wrap_in_operation : Bool

pub data Resolver : Type 0 where
  global_resolver : Resolver
  type_server_then : String → Resolver → Resolver

pub record Engine : Type 0 where
  pub name : String
  pub cfg : Config
  pub base_dir : String
  pub ldr : ℕ
  pub discoverer : ℕ
  pub resolver : Resolver
  pub automation_config : AutomationAnnotation
  pub console : Option ℕ
  pub use_modules : Bool
  pub loop_started : Bool
  pub instances : List Instance

-- The options that the package offers; `with_modules_registry` with false stands for nil.
pub data EngineOption : Type 0 where
  with_discoverer : ℕ → EngineOption
  with_source_loader : ℕ → EngineOption
  with_base_directory : String → EngineOption
  with_modules_registry : Bool → EngineOption
  with_automation_config : AutomationAnnotation → EngineOption
  with_console : ℕ → EngineOption

unfoldable pub apply_option : EngineOption → Engine → Engine
apply_option (with_discoverer d) e = record e { discoverer = d }
apply_option (with_source_loader l) e = record e { ldr = l }
apply_option (with_base_directory dir) e = record e { base_dir = dir }
apply_option (with_modules_registry r) e = record e { use_modules = r }
apply_option (with_automation_config c) e = record e { automation_config = c }
apply_option (with_console p) e = record e { console = some p }

-- for _, opt := range opts { opt(engine) }
unfoldable pub apply_options : List EngineOption → Engine → Engine
unfolding apply_option
apply_options [] e = e
apply_options (o ∷ os) e = apply_options os (apply_option o e)

abbrev pub empty_annotation : AutomationAnnotation
empty_annotation = record { connect_headers = []; parameters = []; wrap_in_operation = false }

-- The engine before its options: the defaults, and the resolver of a configured type server.
unfoldable pub default_engine : String → Config → Engine
default_engine name cfg = record {
  name = name;
  cfg = cfg;
  base_dir = "";
  ldr = 0;
  discoverer = 0;
  resolver =
      if cfg.type_server_url == ""
      then global_resolver
      else type_server_then cfg.type_server_url global_resolver;
  automation_config = empty_annotation;
  console = none;
  use_modules = true;
  loop_started = false;
  instances = [];
}

abbrev pub enabled_engine : Engine → Enabled → Option Engine
enabled_engine e en = elim en.errors [
  | [] ↦ some (record e { instances = en.registered })
  | x ∷ xs ↦ none
]

-- New: defaults, then the options in order, then the loop, then the modules. `none` is the error
-- of a module that failed.
unfoldable pub new_engine :
    String → Config → List EngineOption → Registry → Outcome (Registry × Option Engine)
unfolding default_engine apply_options enable_modules
new_engine name cfg opts reg =
    let e = record (apply_options opts (default_engine name cfg)) { loop_started = true } in
    if e.use_modules
    then (enable_modules reg >>= λ r. done (r.0, enabled_engine e r.1))
    else done (reg, some e)

-- The loader of require(): paths are below the base directory, if there is one.
unfoldable pub source_path : (String → String → String) → Engine → String → String
source_path filepath_join e path = if e.base_dir == "" then path else filepath_join e.base_dir path
