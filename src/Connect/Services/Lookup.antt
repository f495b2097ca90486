-- ===== src/Connect/Services/Lookup.antt =====
-- internal/automation/modules/connect/module.go: the client that a script finds in the object of
-- `services`.
use events_service.Base.{
  List, [], ◌∷◌, ◌++◌, false, ◌||◌, String, some, string_eq, eq_iff, lookup, lookup-insert, All,
  ◌≡◌, ◌≢◌, refl, ◌∙◌, arith, eq_refl,
}
use events_service.Connect.Services.{
  Method, ServiceDescriptor, Found, not_found, service_descriptor, other_descriptor, ServiceObject,
  Services, js_service_name, method_name, client_of, set_methods, make_service_client,
  make_services, services_instance, ServiceError, instantiated,
}
use events_service.Base.{ℕ, done, sym, ap, true, Unique}
use events_service.Modules.{Registry}
use events_service.Modules.Lookup.{
  Named, require_native, object_of, made_by, require-instances_of, errors_of-lookup,
}
use events_service.Engine.{Engine, EngineOption, Config, new_engine, apply_options, default_engine}
use events_service.Engine.Options.{new_engine-instances, new_engine-modules}
use events_service.Connect.Services.Failing.{services_module, failed-instantiated}

module _ {D : Type 0} (lower : String → String) (connect_headers : List (String × String)) where
  -- A method that does not stream and is not named `key` in scripts, or one that streams.
  abbrev Elsewhere : String → Method D → Type 0
  Elsewhere key m =
      m.is_streaming_client || m.is_streaming_server ≡ false → method_name lower m.name ≢ key

  -- Methods of other names leave a name alone.
  lookup-set_methods-other :
      (full_name key : String) (ms : List (Method D)) (obj : ServiceObject D)
      → All (Elsewhere key) ms
      → lookup key (set_methods lower connect_headers full_name ms obj) ≡ lookup key obj
  unfolding set_methods
  lookup-set_methods-other full_name key [] obj others = refl
  lookup-set_methods-other full_name key (m ∷ ms) obj (other, others) =
      lookup-set_methods-other full_name key ms _ others
      ∙ ground (
        arith,
        other,
        eq_iff (method_name lower m.name) key,
        lookup-insert (method_name lower m.name) key (client_of lower connect_headers full_name m)
            obj,
      )

  -- The last method of a name gets it, if it does not stream.
  lookup-set_methods :
      (full_name : String) (before : List (Method D)) (m : Method D) (after : List (Method D))
      (obj : ServiceObject D)
      → m.is_streaming_client || m.is_streaming_server ≡ false
      → All (Elsewhere (method_name lower m.name)) after
      → lookup
          (method_name lower m.name)
          (set_methods lower connect_headers full_name (before ++ m ∷ after) obj)
        ≡ some (client_of lower connect_headers full_name m)
  unfolding set_methods
  lookup-set_methods full_name [] m after obj unary others =
      lookup-set_methods-other full_name (method_name lower m.name) after _ others
      ∙ rw unary (
          lookup-insert (method_name lower m.name) (method_name lower m.name)
            (client_of lower connect_headers full_name m) obj
          ∙ rw (eq_refl (method_name lower m.name)) refl)
  lookup-set_methods full_name (n ∷ before) m after obj unary others =
      lookup-set_methods full_name before m after _ unary others

  module _ (find : String → Found D) where
    lookup-make_service_client :
        (pkgname service key : String) (found : Found D) (s : Services D)
        → pkgname ≢ key
        → lookup key (make_service_client lower connect_headers pkgname service found s).exports
          ≡ lookup key s.exports
    unfolding make_service_client
    lookup-make_service_client pkgname service key not_found s other = refl
    lookup-make_service_client pkgname service key other_descriptor s other = refl
    lookup-make_service_client pkgname service key (service_descriptor d) s other = ground (
      arith,
      eq_iff pkgname key,
      lookup-insert pkgname key (set_methods lower connect_headers d.full_name d.methods [])
          s.exports,
    )

    -- Services of other names leave a name alone.
    lookup-make_services-other :
        (key : String) (services : List String) (s : Services D)
        → All (λ service. js_service_name lower service ≢ key) services
        → lookup key (make_services lower connect_headers find services s).exports
          ≡ lookup key s.exports
    unfolding make_services
    lookup-make_services-other key [] s others = refl
    lookup-make_services-other key (service ∷ services) s (other, others) =
        lookup-make_services-other key services _ others
        ∙ lookup-make_service_client (js_service_name lower service) service key (find service) s
            other

    -- The last service of a name gets it, if it has a descriptor.
    lookup-make_services :
        (before : List String) (service : String) (after : List String) (s : Services D)
        (d : ServiceDescriptor D)
        → find service ≡ service_descriptor d
        → All (λ other. js_service_name lower other ≢ js_service_name lower service) after
        → lookup
            (js_service_name lower service)
            (make_services lower connect_headers find (before ++ service ∷ after) s).exports
          ≡ some (set_methods lower connect_headers d.full_name d.methods [])
    unfolding make_services make_service_client
    lookup-make_services [] service after s d found others =
        let key = js_service_name lower service in
        lookup-make_services-other key after _ others
        ∙ rw found (
            lookup-insert key key (set_methods lower connect_headers d.full_name d.methods [])
              s.exports
            ∙ rw (eq_refl key) refl)
    lookup-make_services (x ∷ before) service after s d found others =
        lookup-make_services before service after _ d found others

    -- The object of the module, if there are no errors.
    made_object :
        (text : List ServiceError → String) (exports : ℕ) (s : Services D)
        → s.errors ≡ []
        → object_of (instantiated text exports (some s)) ≡ some exports
    made_object text exports s none_left = rw none_left refl

    -- Where an engine could be made, the module has gathered no errors.
    no_errors-made :
        (text : List ServiceError → String) (exports : ℕ) (name : String) (cfg : Config)
        (opts : List EngineOption) (reg reg' : Registry) (e : Engine) (s : Services D)
        → new_engine name cfg opts reg ≡ done (reg', some e)
        → (apply_options opts (default_engine name cfg)).use_modules ≡ true
        → lookup "services" reg.modules
          ≡ some (
              services_module lower connect_headers find text exports cfg.type_server_url
                cfg.connect_services)
        → services_instance lower connect_headers find cfg.type_server_url cfg.connect_services
          ≡ some s
        → s.errors ≡ []
    no_errors-made text exports name cfg opts reg reg' e s made used there is =
        by_errors s.errors refl
      where
        by_errors : (es : List ServiceError) → s.errors ≡ es → s.errors ≡ []
        by_errors [] none_left = none_left
        by_errors (x ∷ xs) some_left =
            let (reason, fails) =
              failed-instantiated lower connect_headers find text exports s
                (λ none_left. let both : x ∷ xs ≡ [] = sym some_left ∙ none_left in cc) in
            let refused = (new_engine-modules name cfg opts reg reg' (some e) made used).1 (
              errors_of-lookup reg.modules "services" reason _ there
                (ap (instantiated text exports) is ∙ fails)) in
            cc

    -- A script of an engine that could be made finds a method of a configured service: require() of
    -- `services` gives the exports of the module, in which the service stands under the last part of
    -- its name, without "Service" and in lower case, and there the method under its name with its first
    -- letter in lower case: a client that calls this method of this service. (There is a type server;
    -- the module is in the registry, whose modules stand under their names, and the options leave the
    -- registry in use. The service has a descriptor, the method does not stream, and neither a service
    -- configured behind it nor a method behind it comes to the same name, which would then stand there
    -- alone.)
    pub services_instance-client :
        (text : List ServiceError → String) (exports : ℕ) (name : String) (cfg : Config)
        (opts : List EngineOption) (reg reg' : Registry) (e : Engine) (service : String)
        (before after : List String) (d : ServiceDescriptor D) (m : Method D)
        (first last : List (Method D))
        → new_engine name cfg opts reg ≡ done (reg', some e)
        → (apply_options opts (default_engine name cfg)).use_modules ≡ true
        → lookup "services" reg.modules
          ≡ some (
              services_module lower connect_headers find text exports cfg.type_server_url
                cfg.connect_services)
        → Unique reg.modules
        → Named reg.modules
        → cfg.type_server_url ≢ ""
        → cfg.connect_services ≡ before ++ service ∷ after
        → find service ≡ service_descriptor d
        → d.methods ≡ first ++ m ∷ last
        → m.is_streaming_client || m.is_streaming_server ≡ false
        → All (λ other. js_service_name lower other ≢ js_service_name lower service) after
        → All (Elsewhere (method_name lower m.name)) last
        → (s : Services D) × (services_instance lower connect_headers find cfg.type_server_url
              cfg.connect_services
            ≡ some s)
          × (s.errors ≡ [])
          × (require_native "services" e.instances ≡ some exports)
          × (obj : ServiceObject D) × (lookup (js_service_name lower service) s.exports ≡ some obj)
          × (lookup (method_name lower m.name) obj
              ≡ some (client_of lower connect_headers d.full_name m))
    unfolding services_instance
    services_instance-client text exports name cfg opts reg reg' e service before after d m first
          last made used there unique named server services found methods unary later_services
          names =
        let s₀ : Services D = record { exports = []; errors = [] } in
        let s = make_services lower connect_headers find cfg.connect_services s₀ in
        let is : services_instance lower connect_headers find cfg.type_server_url
              cfg.connect_services
            ≡ some s =
          ground (arith, eq_iff cfg.type_server_url "") in
        let no_errors = no_errors-made text exports name cfg opts reg reg' e s made used there is in
        (
          s,
          is,
          no_errors,
          ap (require_native "services") (new_engine-instances name cfg opts reg reg' e made used)
              ∙ require-instances_of reg.modules "services" unique named
              ∙ ap made_by there
              ∙ ap (λ o. object_of (instantiated text exports o)) is
              ∙ made_object text exports s no_errors,
          set_methods lower connect_headers d.full_name d.methods [],
          rw services (lookup-make_services before service after s₀ d found later_services),
          rw methods (lookup-set_methods d.full_name first m last [] unary names),
        )
