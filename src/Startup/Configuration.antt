-- ===== src/Startup/Configuration.antt =====
-- internal/config/config.go: LoadConfig. Package envconfig, which reads the process environment field
-- by field, enters as an argument.
use events_service.Base.{
  List, [], ◌∷◌, Bool, true, false, String, Option, none, some, ◌≡◌, refl, ◌⊎◌, inl, inr, ◌≢◌,
  Option-cases, Bool-cases, eq_iff, ◌++◌, if◌then◌else◌, ◌==◌, string_eq,
}
use events_service.Base.Try.{Try, returned, thrown, ◌>>=◌}
use events_service.Text.{option_or}
use events_service.Bundle.{Bundle}
use events_service.Startup.{
  Settings, servers_of, bundles_of, handler_options, logging, validation, authorization,
  type_server_codec,
}

-- The tag `env` of a field: its variable, whether it is required, and its default.
pub record Tag : Type 0 where
  pub variable : String
  pub required : Bool
  pub default_value : Option String

abbrev pub optional : String → Tag
optional variable = record { variable = variable; required = false; default_value = none }

abbrev pub with_default : String → String → Tag
with_default variable value = record {
  variable = variable;
  required = false;
  default_value = some value;
}

-- What envconfig.Process does: the text for a field, or an error; and the elements of a list field.
pub record Envconfig (E : Type 0) : Type 0 where
  pub process : Tag → Try E String
  pub split : String → List String

-- What there is for a variable, if it is set.
abbrev pub when_set : {A : Type 0} → Option String → (String → List A) → List A
when_set none f = []
when_set (some value) f = f value

-- No variable is set to the empty text.
abbrev pub NonEmpty : (String → Option String) → Type 0
NonEmpty env = (name value : String) → env name ≡ some value → value ≢ ""

-- A test of a setting for the empty text is a test of whether its variable is set.
empty-when_set :
    {A : Type 0} (env : String → Option String) (name : String) (f : String → List A)
    → NonEmpty env
    → (if option_or (env name) "" == "" then [] else f (option_or (env name) ""))
      ≡ when_set (env name) f
empty-when_set env name f filled = elim (Option-cases (env name)) [
  | inl unset ↦ rw unset refl
  | inr (value, set) ↦ elim (Bool-cases (value == "")) [
    | inl empty ↦ absurd (filled name value set ((eq_iff value "").0 empty))
    | inr full ↦ rw (set, full) refl
  ]
]

module _ {E : Type 0} (ec : Envconfig E) where
  -- LoadConfig: the fields of Config in their order; the first error is returned.
  unfoldable pub load_config : Try E Settings
  load_config = do
    mqtt ← ec.process (record { variable = "MQTT_URL"; required = true; default_value = none })
    listen ← ec.process (with_default "LISTEN" ":8090")
    admin ← ec.process (with_default "ADMIN_LISTEN" ":8091")
    origins ← ec.process (with_default "ALLOWED_ORIGINS" "*")
    path ← ec.process (optional "AUTOMATION_PATH")
    idm ← ec.process (optional "IDM_URL")
    types ← ec.process (optional "TYPE_SERVER")
    services ← ec.process (optional "SERVICES")
    returned (record {
      mqtt_url = mqtt;
      listen_address = listen;
      admin_listen_address = admin;
      allowed_origins = ec.split origins;
      script_path = path;
      idm_url = idm;
      automation = record { type_server_url = types; connect_services = ec.split services };
    })

  -- What envconfig documents, for an environment `env`: the text of a variable that is set to one; if it is
  -- not set, the
  -- default of the field; else an error for a required field, and the empty text for another.
  pub record Documented (env : String → Option String) : Type 0 where
    pub set_text :
        (t : Tag) (value : String)
        → env t.variable ≡ some value
        → value ≢ ""
        → ec.process t ≡ returned value
    pub unset_default :
        (t : Tag) (value : String)
        → env t.variable ≡ none
        → t.default_value ≡ some value
        → ec.process t ≡ returned value
    pub unset_required :
        (t : Tag)
        → env t.variable ≡ none
        → t.default_value ≡ none
        → t.required ≡ true
        → (e : E) × (ec.process t ≡ thrown e)
    pub unset_optional :
        (t : Tag)
        → env t.variable ≡ none
        → t.default_value ≡ none
        → t.required ≡ false
        → ec.process t ≡ returned ""

  process-with_default :
      (env : String → Option String) (name value : String)
      → Documented env
      → NonEmpty env
      → ec.process (with_default name value) ≡ returned (option_or (env name) value)
  process-with_default env name value doc filled = elim (Option-cases (env name)) [
    | inl unset ↦ rw unset (doc.unset_default (with_default name value) value unset refl)
    | inr (found, set) ↦
        rw set (doc.set_text (with_default name value) found set (filled name found set))
  ]

  process-optional :
      (env : String → Option String) (name : String)
      → Documented env
      → NonEmpty env
      → ec.process (optional name) ≡ returned (option_or (env name) "")
  process-optional env name doc filled = elim (Option-cases (env name)) [
    | inl unset ↦ rw unset (doc.unset_optional (optional name) unset refl refl)
    | inr (found, set) ↦ rw set (doc.set_text (optional name) found set (filled name found set))
  ]

  -- What LoadConfig returns for an environment, by the text of MQTT_URL.
  abbrev pub configured : (String → Option String) → String → Settings
  configured env mqtt = record {
    mqtt_url = mqtt;
    listen_address = option_or (env "LISTEN") ":8090";
    admin_listen_address = option_or (env "ADMIN_LISTEN") ":8091";
    allowed_origins = ec.split (option_or (env "ALLOWED_ORIGINS") "*");
    script_path = option_or (env "AUTOMATION_PATH") "";
    idm_url = option_or (env "IDM_URL") "";
    automation = record {
      type_server_url = option_or (env "TYPE_SERVER") "";
      connect_services = ec.split (option_or (env "SERVICES") "");
    };
  }

  -- LoadConfig fails exactly without MQTT_URL; else each setting is the text of its variable, or its
  -- default.
  pub load_config-configured :
      (env : String → Option String)
      → Documented env
      → NonEmpty env
      → ((env "MQTT_URL" ≡ none) × (e : E) × (load_config ≡ thrown e))
        ⊎ ((mqtt : String) × (env "MQTT_URL" ≡ some mqtt)
            × (load_config ≡ returned (configured env mqtt)))
  unfolding load_config
  load_config-configured env doc filled =
      let mqtt : Tag = record { variable = "MQTT_URL"; required = true; default_value = none } in
      elim (Option-cases (env "MQTT_URL")) [
        | inl unset ↦
            let (e, fails) = doc.unset_required mqtt unset refl refl in
            inl (unset, e, rw fails refl)
        | inr (found, set) ↦ inr (
          found,
          set,
          rw
              (
                doc.set_text mqtt found set (filled "MQTT_URL" found set),
                process-with_default env "LISTEN" ":8090" doc filled,
                process-with_default env "ADMIN_LISTEN" ":8091" doc filled,
                process-with_default env "ALLOWED_ORIGINS" "*" doc filled,
                process-optional env "AUTOMATION_PATH" doc filled,
                process-optional env "IDM_URL" doc filled,
                process-optional env "TYPE_SERVER" doc filled,
                process-optional env "SERVICES" doc filled,
              )
              refl,
        )
      ]

  -- LoadConfig fails exactly without MQTT_URL. Of what it returns, main makes this: the handler
  -- authorizes requests only if IDM_URL is set, and takes the codec of a type server if TYPE_SERVER
  -- is; the two servers are at the addresses of LISTEN and ADMIN_LISTEN, or else at :8090 and :8091;
  -- and the bundles are those at AUTOMATION_PATH, if it is set. (envconfig does what it documents,
  -- and no variable is set to the empty text.)
  pub load_config-startup :
      (env : String → Option String) (discover : String → Option (List Bundle))
      → Documented env
      → NonEmpty env
      → ((env "MQTT_URL" ≡ none) × (e : E) × (load_config ≡ thrown e))
        ⊎ ((mqtt : String) × (cfg : Settings) × (env "MQTT_URL" ≡ some mqtt)
            × (load_config ≡ returned cfg)
            × (cfg.mqtt_url ≡ mqtt)
            × (handler_options cfg
                ≡ logging ∷ validation ∷ when_set (env "IDM_URL") (λ url. authorization ∷ [])
                  ++ when_set (env "TYPE_SERVER") (λ url. type_server_codec url ∷ []))
            × (servers_of cfg
                ≡ record { address = option_or (env "LISTEN") ":8090"; server_key = "public" }
                  ∷ record {
                    address = option_or (env "ADMIN_LISTEN") ":8091";
                    server_key = "admin";
                  }
                  ∷ [])
            × (bundles_of cfg discover
                ≡ when_set (env "AUTOMATION_PATH") (λ path. option_or (discover path) [])))
  unfolding handler_options servers_of bundles_of
  load_config-startup env discover doc filled = elim (load_config-configured env doc filled) [
    | inl fails ↦ inl fails
    | inr (mqtt, set, loads) ↦ inr (
      mqtt,
      configured env mqtt,
      set,
      loads,
      refl,
      rw
          (
            empty-when_set env "IDM_URL" (λ url. authorization ∷ []) filled,
            empty-when_set env "TYPE_SERVER" (λ url. type_server_codec url ∷ []) filled,
          )
          refl,
      refl,
      empty-when_set env "AUTOMATION_PATH" (λ path. option_or (discover path) []) filled,
    )
  ]
