-- ===== src/Engine/Options.antt =====
-- internal/automation/engine.go: which option decides a setting, and when New refuses.
use events_service.Base.{
  ℕ, List, [], ◌∷◌, true, false, String, Option, none, some, ◌≡◌, refl, ◌∙◌, arith, done,
  >>=-eq-done, ◌↔◌, ◌≢◌,
}
use events_service.Modules.{Registry, enable_modules}
use events_service.Modules.Instances.{
  errors_of, instances_of, enable_modules_lem, enable_modules-done,
}
use events_service.Engine.{
  Engine, EngineOption, AutomationAnnotation, Config, with_discoverer, with_source_loader,
  with_base_directory, with_modules_registry, with_automation_config, with_console, apply_option,
  apply_options, default_engine, new_engine, enabled_engine,
}

-- What an option says about each of three settings.
abbrev pub base_of : EngineOption → Option String
base_of (with_base_directory dir) = some dir
base_of (with_discoverer d) = none
base_of (with_source_loader l) = none
base_of (with_modules_registry r) = none
base_of (with_automation_config c) = none
base_of (with_console p) = none

abbrev pub config_of : EngineOption → Option AutomationAnnotation
config_of (with_automation_config c) = some c
config_of (with_base_directory dir) = none
config_of (with_discoverer d) = none
config_of (with_source_loader l) = none
config_of (with_modules_registry r) = none
config_of (with_console p) = none

abbrev or_else {ℓ} : {A : Type ℓ} → Option A → Option A → Option A
or_else none o = o
or_else (some a) o = some a

abbrev pub default_to {ℓ} : {A : Type ℓ} → Option A → A → A
default_to none d = d
default_to (some a) d = a

-- What the last option that speaks of a setting says.
unfoldable pub last_of {ℓ} : {A : Type ℓ} → (EngineOption → Option A) → List EngineOption → Option A
last_of f [] = none
last_of f (o ∷ os) = or_else (last_of f os) (f o)

base_dir-apply_option :
    (o : EngineOption) (e : Engine)
    → (apply_option o e).base_dir ≡ default_to (base_of o) e.base_dir
unfolding apply_option
base_dir-apply_option (with_base_directory dir) e = refl
base_dir-apply_option _ e = refl

config-apply_option :
    (o : EngineOption) (e : Engine)
    → (apply_option o e).automation_config ≡ default_to (config_of o) e.automation_config
unfolding apply_option
config-apply_option (with_automation_config c) e = refl
config-apply_option _ e = refl

last_base :
    (os : List EngineOption) (e : Engine)
    → (apply_options os e).base_dir ≡ default_to (last_of base_of os) e.base_dir
unfolding apply_options last_of
last_base [] e = refl
last_base (o ∷ os) e = last_base os (apply_option o e) ∙ ground (arith, base_dir-apply_option o e)

last_config :
    (os : List EngineOption) (e : Engine)
    → (apply_options os e).automation_config ≡ default_to (last_of config_of os) e.automation_config
unfolding apply_options last_of
last_config [] e = refl
last_config (o ∷ os) e = last_config os (apply_option o e) ∙ ground (arith, config-apply_option o e)

engine_lem :
    (name : String) (cfg : Config) (opts : List EngineOption) (reg reg' : Registry) (e : Engine)
    → new_engine name cfg opts reg ≡ done (reg', some e)
    → (e.base_dir ≡ (apply_options opts (default_engine name cfg)).base_dir)
      × (e.automation_config ≡ (apply_options opts (default_engine name cfg)).automation_config)
unfolding new_engine
engine_lem name cfg opts reg reg' e h = ground arith

-- Options given to Prepare come behind the bundle's own, so a later option for the base directory
-- or the automation configuration replaces the bundle's; with no such option the bundle's stands.
pub new_engine-last :
    (name dir : String) (cfg : Config) (printer : ℕ) (c : AutomationAnnotation)
    (opts : List EngineOption) (reg reg' : Registry) (e : Engine)
    → new_engine name cfg
        (with_console printer ∷ with_base_directory dir ∷ with_automation_config c ∷ opts)
        reg
      ≡ done (reg', some e)
    → (e.base_dir ≡ default_to (last_of base_of opts) dir)
      × (e.automation_config ≡ default_to (last_of config_of opts) c)
unfolding last_of
new_engine-last name dir cfg printer c opts reg reg' e h =
    let own = with_console printer ∷ with_base_directory dir ∷ with_automation_config c ∷ opts in
    let (b, a) = engine_lem name cfg own reg reg' e h in
    (
      b ∙ last_base own (default_engine name cfg) ∙ ground arith,
      a ∙ last_config own (default_engine name cfg) ∙ ground arith,
    )

-- With the module registry in use, New returns an error exactly when some module of the registry
-- fails.
pub new_engine-modules :
    (name : String) (cfg : Config) (opts : List EngineOption) (reg reg' : Registry)
    (o : Option Engine)
    → new_engine name cfg opts reg ≡ done (reg', o)
    → (apply_options opts (default_engine name cfg)).use_modules ≡ true
    → (o ≡ none) ↔ (errors_of reg.modules ≢ [])
unfolding new_engine
new_engine-modules name cfg opts reg reg' o h u =
    let ((r, en), e₁, e₂) = >>=-eq-done (enable_modules reg) _ (rw u at h) in
    ground (arith, enable_modules_lem reg r en e₁)

-- With the module registry in use, and no writer in it, New ends.
pub new_engine-done :
    (name : String) (cfg : Config) (opts : List EngineOption) (reg : Registry)
    → reg.lock.writer ≡ false
    → (apply_options opts (default_engine name cfg)).use_modules ≡ true
    → (reg' : Registry) × (o : Option Engine) × (new_engine name cfg opts reg ≡ done (reg', o))
unfolding new_engine
new_engine-done name cfg opts reg free used =
    let ((reg', en), enabled) = enable_modules-done reg free in
    let e : Engine = record (apply_options opts (default_engine name cfg)) {
      loop_started = true;
    } in
    (reg', enabled_engine e en, rw (used, enabled) refl)

-- What require() finds in an engine is what the modules of the registry made.
pub new_engine-instances :
    (name : String) (cfg : Config) (opts : List EngineOption) (reg reg' : Registry) (e : Engine)
    → new_engine name cfg opts reg ≡ done (reg', some e)
    → (apply_options opts (default_engine name cfg)).use_modules ≡ true
    → e.instances ≡ instances_of reg.modules
unfolding new_engine
new_engine-instances name cfg opts reg reg' e h u =
    let ((r, en), e₁, e₂) = >>=-eq-done (enable_modules reg) _ (rw u at h) in
    ground (arith, enable_modules_lem reg r en e₁)
