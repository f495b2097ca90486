-- ===== src/Natives/Required.antt =====
-- cmds/events-service/main.go with internal/automation/modules and engine.go: which native modules
-- the scripts of an engine can load.
use events_service.Base.{
  ℕ, List, [], ◌∷◌, String, true, false, Option, none, some, done, ◌≡◌, ◌≢◌, refl, sym, ◌∙◌, ap,
  arith, ◌==◌, string_eq, eq_iff, ◌↔◌, ◌⊎◌, inl, inr, Unique, lookup, insert, if◌then◌else◌,
  Option-cases, Bool-cases,
}
use events_service.Modules.{Registry, Module, failed}
use events_service.Modules.Instances.{errors_of}
use events_service.Modules.Lookup.{
  require_native, object_of, made_by, Named, require-instances_of, errors_of-Failing,
  errors_of-lookup,
}
use events_service.Engine.{Engine, EngineOption, Config, apply_options, default_engine, new_engine}
use events_service.Engine.Options.{new_engine-modules, new_engine-done, new_engine-instances}
use events_service.Natives.{
  Natives, native_modules, fetch_instance, connect_module, encoding_module, fetch_module, fs_module,
  path_module, template_module, timeutil_module, default_registry, init_all,
}

-- The registry behind the imports of main.
abbrev pub registered : Natives → List (String × Module)
registered n =
    ("services", connect_module n)
    ∷ ("encoding", encoding_module)
    ∷ ("fetch", fetch_module n)
    ∷ ("fs", fs_module n)
    ∷ ("path", path_module n)
    ∷ ("template", template_module n)
    ∷ ("timeutil", timeutil_module n)
    ∷ []

-- No two of the modules have one name, so each init function registers its own.
pub init_all-registered :
    (n : Natives)
    → init_all (native_modules n) default_registry
      ≡ done (record { lock = default_registry.lock; modules = registered n })
unfolding init_all insert lookup
init_all-registered n = refl

-- The modules of the registry in any order.
pub record Reordered (n : Natives) (ms : List (String × Module)) : Type 0 where
  pub one_each : Unique ms
  pub alike : (k : String) → lookup k ms ≡ lookup k (registered n)

-- The object that a name stands for in require().
abbrev pub native_object : Natives → String → Option ℕ
native_object n k =
    if "services" == k
    then object_of n.services
    else if "encoding" == k
    then none
    else if "fetch" == k
    then none
    else if "fs" == k
    then some n.fs_object
    else if "path" == k
    then some n.path_exports
    else if "template" == k
    then some n.template_object
    else if "timeutil" == k
    then some n.timeutil_exports
    else none

-- What keeps an engine from being made.
abbrev pub Refuses : Natives → Type 0
Refuses n = ((reason : String) × (n.services ≡ failed reason)) ⊎ (n.fetch_error ≢ none)

object_of-fetch : (o : Option String) → object_of (fetch_instance o) ≡ none
object_of-fetch none = refl
object_of-fetch (some reason) = refl

made_by-registered :
    (n : Natives) (k : String) → made_by (lookup k (registered n)) ≡ native_object n k
unfolding lookup
made_by-registered n k = ground (arith, object_of-fetch n.fetch_error)

registered-Named : (n : Natives) → Named (registered n)
unfolding lookup
registered-Named n k m h = ground (
  arith,
  eq_iff "encoding" k,
  eq_iff "fetch" k,
  eq_iff "services" k,
  eq_iff "fs" k,
  eq_iff "path" k,
  eq_iff "template" k,
  eq_iff "timeutil" k,
)

-- A module of the registry that fails is `services` or `fetch`.
Failing-Refuses :
    (n : Natives) (k reason : String) (m : Module)
    → lookup k (registered n) ≡ some m
    → m.new_module_instance ≡ failed reason
    → Refuses n
unfolding lookup
Failing-Refuses n k reason m found fails = elim (Bool-cases ("services" == k)) [
  | inl here ↦ inl (reason, ground arith)
  | inr others ↦ elim (Option-cases n.fetch_error) [
    | inl fine ↦ absurd (ground arith)
    | inr (e, broken) ↦ inr (λ fine. cc)
  ]
]

module _ (n : Natives) (ms : List (String × Module)) (o : Reordered n ms) where
  Reordered-Named : Named ms
  Reordered-Named k m h = registered-Named n k m (sym (o.alike k) ∙ h)

  errors_of-Refuses : (errors_of ms ≢ []) ↔ Refuses n
  unfolding lookup
  errors_of-Refuses = (
    (λ h.
        let (k, m, reason, found, fails) = errors_of-Failing ms o.one_each h in
        Failing-Refuses n k reason m (sym (o.alike k) ∙ found) fails),
    refused,
  )
    where
      refused : Refuses n → errors_of ms ≢ []
      refused (inl (reason, fails)) =
          errors_of-lookup ms "services" reason (connect_module n) (o.alike "services" ∙ refl) fails
      refused (inr broken) = elim (Option-cases n.fetch_error) [
        | inl fine ↦ absurd (broken fine)
        | inr (reason, e) ↦
            errors_of-lookup ms "fetch" reason (fetch_module n) (o.alike "fetch" ∙ refl) (rw e refl)
      ]

-- The init functions of the imported packages all register their module. With the modules in
-- whatever order `range` visits them, New then ends: with an error exactly if the service clients
-- or fetch.Enable fail, and else with an engine whose native modules, as RegisterNativeModule has them
-- for require(), are the service clients, if there are any, and the objects of fs, path, template and
-- timeutil under their names; no other name is a native module of the program, encoding and fetch
-- among them. (No one is writing to the registry, and the options leave it in use.)
pub new_engine-natives :
    (n : Natives) (name : String) (cfg : Config) (opts : List EngineOption) (reg : Registry)
    → Reordered n reg.modules
    → reg.lock.writer ≡ false
    → (apply_options opts (default_engine name cfg)).use_modules ≡ true
    → (init_all (native_modules n) default_registry
        ≡ done (record { lock = default_registry.lock; modules = registered n }))
      × (reg' : Registry) × (o : Option Engine) × (new_engine name cfg opts reg ≡ done (reg', o))
      × ((o ≡ none) ↔ Refuses n)
      × ((e : Engine)
          → o ≡ some e
          → (k : String) → require_native k e.instances ≡ native_object n k)
new_engine-natives n name cfg opts reg any_order free used =
    let (reg', o, ends) = new_engine-done name cfg opts reg free used in
    let refuses = errors_of-Refuses n reg.modules any_order in
    let fails = new_engine-modules name cfg opts reg reg' o ends used in
    (
      init_all-registered n,
      reg',
      o,
      ends,
      ((λ h. refuses.0 (fails.0 h)), (λ h. fails.1 (refuses.1 h))),
      λ e made k.
          let same =
            new_engine-instances name cfg opts reg reg' e (ends ∙ ap (λ x. done (reg', x)) made)
              used in
          ap (require_native k) same
          ∙ require-instances_of reg.modules k any_order.one_each
              (Reordered-Named n reg.modules any_order)
          ∙ ap made_by (any_order.alike k)
          ∙ made_by-registered n k,
    )
