-- ===== src/Bundle.antt =====
-- internal/automation/bundle/bundle.go: a bundle, its mutex and its engine. The file system,
-- the JSON decoder and the script engine are other packages', and enter by their results.
pub mod Mutex
pub mod Parameters
pub mod Load
pub mod Discover
use events_service.Base.{
  ℕ, suc, List, [], ◌∷◌, ◌++◌, Bool, true, false, String, Option, none, some, Outcome, done, panic,
  blocked, nil_pointer, ◌>>=◌, lookup, insert, if◌then◌else◌, leb,
}
use events_service.Engine.{
  Engine, EngineOption, AutomationAnnotation, Config, with_console, with_base_directory,
  with_automation_config, new_engine,
}
use events_service.Modules.{Registry}

-- slog.LevelInfo, LevelWarn and LevelError are 0, 4 and 8; a level is kept here as 4 more, so that
-- LevelDebug, which is -4, is 0.
pub data Level : Type 0 where
  level : ℕ → Level

abbrev pub level_info : Level
level_info = level 4

abbrev pub level_warn : Level
level_warn = level 8

abbrev pub level_error : Level
level_error = level 12

abbrev pub level_leb : Level → Level → Bool
level_leb (level a) (level b) = leb a b

pub record Log : Type 0 where
  pub time : ℕ
  pub log_level : Level
  pub message : String

-- The engine of a bundle with the global variables and scripts of its runtime.
pub record Runtime : Type 0 where
  pub engine : Engine
  pub globals : List (String × String)
  pub scripts : List String

pub record Bundle : Type 0 where
  pub path : String
  pub main : String
  pub version : String
  pub license : String
  pub script_content : String
  pub automation_config : AutomationAnnotation
  pub locked : Bool
  pub runtime : Option Runtime
  pub logs : List Log

-- bundle.lock.Lock(): a sync.Mutex that is held makes the caller wait
unfoldable pub lock : Bundle → Outcome Bundle
lock b = if b.locked then blocked else done (record b { locked = true })

abbrev pub unlock : Bundle → Bundle
unlock b = record b { locked = false }

-- Bundle.Runtime
unfoldable pub runtime_of : Bundle → Outcome (Bundle × Option Runtime)
unfolding lock
runtime_of b = lock b >>= λ l. done (unlock l, l.runtime)

unfoldable pub logs_from : Level → List Log → List Log
logs_from min [] = []
logs_from min (l ∷ ls) =
    let rest = logs_from min ls in if level_leb min l.log_level then l ∷ rest else rest

-- Bundle.ReadLogs
unfoldable pub read_logs : Bundle → Level → Outcome (Bundle × List Log)
unfolding lock logs_from
read_logs b min = lock b >>= λ l. done (unlock l, logs_from min l.logs)

-- Bundle.internalLog; `now` is time.Now(). It asks the engine for its logger.
unfoldable pub internal_log : Bundle → ℕ → Level → String → Outcome Bundle
unfolding lock
internal_log b now lvl msg = lock b >>= λ l. elim l.runtime [
  | none ↦ panic nil_pointer
  | some r ↦ done (
      unlock
        (record l { logs = l.logs ++ record { time = now; log_level = lvl; message = msg } ∷ [] }))
]

-- What reading and decoding vars.json gives.
pub data Vars : Type 0 where
  vars : List (String × String) → Vars
  vars_missing : Vars
  vars_unreadable : Vars
  vars_malformed : Vars

pub data PrepareError : Type 0 where
  bundle_runtime_prepared : PrepareError
  engine_failed : PrepareError
  vars_unparsed : PrepareError
  vars_unread : PrepareError
  entry_point_failed : PrepareError

-- What the environment gives Prepare: vars.json, whether the runtime sets a global of that name,
-- and whether the entry point script runs without an error, if it returns.
pub record PrepareEnv : Type 0 where
  pub vars_json : Vars
  pub settable : String → Bool
  pub script_runs : String → Outcome Bool

abbrev pub value_or : Option String → String → String
value_or none d = d
value_or (some v) d = v

-- The loop over AutomationConfig.Parameters; the first r.Set that fails ends it.
unfoldable pub set_globals :
    (String → Bool)
    → List (String × String)
    → List (String × String)
    → List (String × String)
    → List (String × String)
unfolding lookup insert
set_globals settable params [] globals = globals
set_globals settable params ((name, default) ∷ rest) globals =
    let value = value_or (lookup name params) default in
    let more = set_globals settable params rest (insert name value globals) in
    if settable name then more else globals

-- The options of Prepare, its own first.
abbrev pub prepare_options : Bundle → ℕ → List EngineOption → List EngineOption
prepare_options b printer opts =
    with_console printer
    ∷ with_base_directory b.path
    ∷ with_automation_config b.automation_config
    ∷ opts

-- Prepare, once the engine and vars.json are there: the lock is released, the globals are set and
-- the entry point is run.
unfoldable pub start_runtime :
    PrepareEnv → Bundle → Engine → List (String × String) → Outcome (Bundle × Option PrepareError)
unfolding set_globals
start_runtime env b e params =
    let g = set_globals env.settable params b.automation_config.parameters [] in
    let r : Runtime = record { engine = e; globals = g; scripts = b.script_content ∷ [] } in
    env.script_runs b.script_content >>= λ ran.
    done (record (unlock b) { runtime = some r }, if ran then none else some entry_point_failed)

unfoldable pub with_vars : PrepareEnv → Bundle → Engine → Outcome (Bundle × Option PrepareError)
unfolding start_runtime
with_vars env b e = elim env.vars_json [
  | vars params ↦ start_runtime env b e params
  | vars_missing ↦ start_runtime env b e []
  | vars_unreadable ↦ done (b, some vars_unread)
  | vars_malformed ↦ done (b, some vars_unparsed)
]

-- Prepare, once New has returned.
unfoldable pub on_engine :
    PrepareEnv
    → Bundle
    → Registry × Option Engine
    → Outcome (Bundle × Registry × Option PrepareError)
unfolding with_vars
on_engine env b (reg, none) = done (unlock b, reg, some engine_failed)
on_engine env b (reg, some e) = with_vars env b e >>= λ r. done (r.0, reg, r.1)

-- Prepare, with the lock held, by whether the bundle has a runtime.
unfoldable pub prepare_held :
    PrepareEnv
    → Config
    → ℕ
    → List EngineOption
    → Bundle
    → Registry
    → Option Runtime
    → Outcome (Bundle × Registry × Option PrepareError)
unfolding on_engine new_engine
prepare_held env cfg printer opts b reg (some r) =
    done (unlock b, reg, some bundle_runtime_prepared)
prepare_held env cfg printer opts b reg none =
    new_engine b.path cfg (prepare_options b printer opts) reg >>= λ n. on_engine env b n

-- Prepare. The two errors about vars.json return without bundle.lock.Unlock().
unfoldable pub prepare :
    PrepareEnv
    → Config
    → ℕ
    → List EngineOption
    → Bundle
    → Registry
    → Outcome (Bundle × Registry × Option PrepareError)
unfolding lock prepare_held
prepare env cfg printer opts b reg =
    lock b >>= λ l. prepare_held env cfg printer opts l reg l.runtime
