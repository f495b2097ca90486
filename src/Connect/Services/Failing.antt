-- ===== src/Connect/Services/Failing.antt =====
-- internal/automation/modules/connect/module.go, with modules/registry.go and engine.go: a service
-- that cannot be offered to scripts.
use mathlib.Core.List.{append_assoc, append-nil}
use events_service.Base.{
  ℕ, List, [], ◌∷◌, ◌++◌, true, false, String, none, some, string_eq, eq_iff, ◌≡◌, ◌≢◌, refl, sym,
  ◌∙◌, ap, arith, done,
}
use events_service.Modules.{Registry, Module, failed}
use events_service.Modules.Instances.{errors_of-failed}
use events_service.Engine.{Config, EngineOption, apply_options, default_engine, new_engine}
use events_service.Engine.Options.{new_engine-modules, new_engine-done}
use events_service.Connect.Services.{
  Found, not_found, service_descriptor, other_descriptor, ServiceDescriptor, Services, ServiceError,
  unknown_service, no_service_descriptor, make_service_client, make_services, services_instance,
  instantiated,
}

-- The error of a service, if it has no descriptor.
abbrev pub error_of : {D : Type 0} → String → Found D → List ServiceError
error_of service not_found = unknown_service service ∷ []
error_of service other_descriptor = no_service_descriptor service ∷ []
error_of service (service_descriptor d) = []

module _ {D : Type 0} (lower : String → String) (connect_headers : List (String × String))
    (find : String → Found D) where
  -- The errors of services, in their order.
  abbrev pub errors_for : List String → List ServiceError
  errors_for [] = []
  errors_for (service ∷ services) = error_of service (find service) ++ errors_for services

  errors-make_service_client :
      (pkgname service : String) (found : Found D) (s : Services D)
      → (make_service_client lower connect_headers pkgname service found s).errors
        ≡ s.errors ++ error_of service found
  unfolding make_service_client
  errors-make_service_client pkgname service not_found s = refl
  errors-make_service_client pkgname service other_descriptor s = refl
  errors-make_service_client pkgname service (service_descriptor d) s = sym (append-nil s.errors)

  errors-make_services :
      (services : List String) (s : Services D)
      → (make_services lower connect_headers find services s).errors
        ≡ s.errors ++ errors_for services
  unfolding make_services
  errors-make_services [] s = sym (append-nil s.errors)
  errors-make_services (service ∷ services) s =
      errors-make_services services _
      ∙ ap (λ es. es ++ errors_for services) (errors-make_service_client _ service (find service) s)
      ∙ append_assoc s.errors (error_of service (find service)) (errors_for services)

  errors_for-missing :
      (before : List String) (service : String) (after : List String)
      → ((d : ServiceDescriptor D) → find service ≢ service_descriptor d)
      → errors_for (before ++ service ∷ after) ≢ []
  errors_for-missing [] service after missing = nonempty (find service) missing
    where
      nonempty :
          (found : Found D)
          → ((d : ServiceDescriptor D) → found ≢ service_descriptor d)
          → error_of service found ++ errors_for after ≢ []
      nonempty not_found missing = λ e. cc
      nonempty other_descriptor missing = λ e. cc
      nonempty (service_descriptor d) missing = absurd (missing d refl)
  errors_for-missing (x ∷ before) service after missing =
      longer (error_of x (find x)) (errors_for-missing before service after missing)
    where
      longer : (es : List ServiceError) {more : List ServiceError} → more ≢ [] → es ++ more ≢ []
      longer [] some_more = some_more
      longer (e ∷ es) some_more = λ h. cc

  -- The module `services`, as the registry sees it.
  abbrev pub services_module : (List ServiceError → String) → ℕ → String → List String → Module
  services_module text exports type_server_url services = record {
    name = "services";
    new_module_instance =
        instantiated text exports
          (services_instance lower connect_headers find type_server_url services);
  }

  pub failed-instantiated :
      (text : List ServiceError → String) (exports : ℕ) (s : Services D)
      → s.errors ≢ []
      → (reason : String) × (instantiated text exports (some s) ≡ failed reason)
  failed-instantiated text exports s h = by_errors s.errors refl
    where
      by_errors :
          (es : List ServiceError)
          → s.errors ≡ es
          → (reason : String) × (instantiated text exports (some s) ≡ failed reason)
      by_errors [] e = absurd (h e)
      by_errors (x ∷ xs) e = (text (x ∷ xs), rw e (ap (λ es. failed (text es)) e))

  failed-services_module :
      (text : List ServiceError → String) (exports : ℕ) (type_server_url service : String)
      (before after : List String)
      → type_server_url ≢ ""
      → ((d : ServiceDescriptor D) → find service ≢ service_descriptor d)
      → (reason : String) × ((services_module text exports type_server_url
            (before ++ service ∷ after)).new_module_instance
          ≡ failed reason)
  unfolding services_instance
  failed-services_module text exports type_server_url service before after server missing =
      let s₀ : Services D = record { exports = []; errors = [] } in
      let services = before ++ service ∷ after in
      let s = make_services lower connect_headers find services s₀ in
      let (reason, e) = failed-instantiated text exports s (λ none_left.
        errors_for-missing before service after missing
          (sym (errors-make_services services s₀) ∙ none_left)) in
      (
        reason,
        ap (instantiated text exports) {y = some s} (ground (arith, eq_iff type_server_url "")) ∙ e,
      )

  -- With a type server, one configured service without a service descriptor keeps every engine from
  -- being made, whatever the other services and modules are: New ends with an error. (The module
  -- `services` is in the registry, to which no one is writing, and the options leave the registry
  -- in use.)
  pub new_engine-services :
      (text : List ServiceError → String) (exports : ℕ) (name : String) (cfg : Config)
      (opts : List EngineOption) (reg : Registry) (first last : List (String × Module))
      (service : String) (before after : List String)
      → cfg.type_server_url ≢ ""
      → cfg.connect_services ≡ before ++ service ∷ after
      → ((d : ServiceDescriptor D) → find service ≢ service_descriptor d)
      → reg.lock.writer ≡ false
      → reg.modules
        ≡ first
          ++ ("services", services_module text exports cfg.type_server_url cfg.connect_services)
            ∷ last
      → (apply_options opts (default_engine name cfg)).use_modules ≡ true
      → (reg' : Registry) × (new_engine name cfg opts reg ≡ done (reg', none))
  unfolding new_engine
  new_engine-services text exports name cfg opts reg first last service before after server services
        missing free modules used =
      let m = services_module text exports cfg.type_server_url cfg.connect_services in
      let (reason, fails) =
        failed-services_module text exports cfg.type_server_url service before after server
          missing in
      let (reg', o, ends) = new_engine-done name cfg opts reg free used in
      let m_fails =
        ap (λ l. (services_module text exports cfg.type_server_url l).new_module_instance) services
        ∙ fails in
      let none_made =
        (new_engine-modules name cfg opts reg reg' o ends used).1
          (rw modules (errors_of-failed first "services" reason m last m_fails)) in
      (reg', ends ∙ ap (λ x. done (reg', x)) none_made)
