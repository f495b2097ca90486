-- ===== src/Examples/Preparing.antt =====
-- Engines and bundles at concrete inputs.
use events_service.Base.{List, [], ◌∷◌, true, false, String, none, some, done, blocked, ◌≡◌, refl}
use events_service.Modules.{Registry, Module, RwMutex}
use events_service.Engine.{
  Config, Engine, AutomationAnnotation, empty_annotation, EngineOption, with_console,
  with_base_directory, with_automation_config, apply_options, default_engine,
}
use events_service.Bundle.{
  Bundle, PrepareEnv, Vars, vars_malformed, vars_unparsed, prepare, runtime_of, read_logs,
  internal_log, level_info, level_warn,
}
use events_service.Bundle.Mutex.{leaves_locked, prepare-locked, prepare_then_blocked}

abbrev config : Config
config = record { type_server_url = ""; connect_services = [] }

abbrev free : RwMutex
free = record { readers = 0; writer = false }

abbrev modules_of : List (String × Module) → Registry
modules_of ms = record { lock = free; modules = ms }

abbrev reminders : AutomationAnnotation
reminders = record empty_annotation { parameters = ("greeting", "hello") ∷ ("limit", "3") ∷ [] }

abbrev bundle : Bundle
bundle = record {
  path = "/bundles/reminders";
  main = "index.js";
  version = "1.0.0";
  license = "MIT";
  script_content = "operation()";
  automation_config = reminders;
  locked = false;
  runtime = none;
  logs = [];
}

abbrev prepare_env : Vars → PrepareEnv
prepare_env v = record { vars_json = v; settable = λ name. true; script_runs = λ script. done true }

abbrev own_base : List EngineOption
own_base =
    with_console 1
    ∷ with_base_directory "/bundles/reminders"
    ∷ with_automation_config reminders
    ∷ with_base_directory "/srv"
    ∷ []

abbrev engine : Engine
engine = record (apply_options own_base (default_engine "reminders" config)) {
  loop_started = true;
  instances = [];
}

abbrev stuck : Bundle
stuck = record bundle { locked = true }

abbrev enabled : Registry
enabled = record (modules_of []) { lock = record { readers = 2; writer = false } }

prepare-stuck :
    prepare (prepare_env vars_malformed) config 1 [] bundle (modules_of [])
    ≡ done (stuck, enabled, some vars_unparsed)
unfolding prepare
prepare-stuck = refl

prepare-locked_example : stuck.locked ≡ leaves_locked (some vars_unparsed)
prepare-locked_example =
    prepare-locked (prepare_env vars_malformed) config 1 [] bundle stuck (modules_of []) enabled
      (some vars_unparsed) prepare-stuck

prepare_then_blocked_example :
    (runtime_of stuck ≡ blocked)
    × (read_logs stuck level_warn ≡ blocked)
    × (internal_log stuck 9 level_info "hello" ≡ blocked)
    × (prepare (prepare_env vars_malformed) config 1 [] stuck enabled ≡ blocked)
prepare_then_blocked_example =
    prepare_then_blocked (prepare_env vars_malformed) config 1 [] bundle stuck (modules_of [])
      enabled enabled (some vars_unparsed) level_warn level_info 9 "hello" prepare-stuck refl
