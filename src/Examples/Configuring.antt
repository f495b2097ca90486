-- ===== src/Examples/Configuring.antt =====
-- LoadConfig at a concrete environment.
use events_service.Base.{
  [], ◌∷◌, ◌++◌, true, false, String, Option, none, some, ◌≡◌, refl, ◌⊎◌, inl, inr, if◌then◌else◌,
  ◌==◌, string_eq, Bool-cases, ◌≢◌, eq_iff,
}
use events_service.Base.Try.{Try, returned, thrown}
use events_service.Text.{option_or}
use events_service.Startup.{
  Settings, servers_of, bundles_of, handler_options, logging, validation, authorization,
  type_server_codec,
}
use events_service.Startup.Configuration.{
  Tag, Envconfig, Documented, NonEmpty, when_set, load_config, load_config-startup,
}

-- An environment with the one variable that LoadConfig requires.
abbrev environment : String → Option String
environment name = if name == "MQTT_URL" then some "tcp://mqtt:1883" else none

abbrev text_of : Tag → Option String → Try String String
text_of t (some value) = returned value
text_of t none = elim t.default_value [
  | some value ↦ returned value
  | none ↦ if t.required then thrown t.variable else returned ""
]

abbrev envconfig : Envconfig String
envconfig = record { process = λ t. text_of t (environment t.variable); split = λ text. text ∷ [] }

envconfig-Documented : Documented envconfig environment
envconfig-Documented = record {
  set_text = λ t value set full. rw set refl;
  unset_default = λ t value unset default. rw (unset, default) refl;
  unset_required = λ t unset default required. (t.variable, rw (unset, default, required) refl);
  unset_optional = λ t unset default optional. rw (unset, default, optional) refl;
}

abbrev mqtt_url : String
mqtt_url = "tcp://mqtt:1883"

not_empty : mqtt_url ≢ ""
not_empty same = let differs : false ≡ true = (eq_iff mqtt_url "").1 same in cc

environment-NonEmpty : NonEmpty environment
environment-NonEmpty name value set = elim (Bool-cases (name == "MQTT_URL")) [
  | inl mqtt ↦
      let found : some mqtt_url ≡ some value = rw mqtt at set in λ empty. absurd (not_empty (cc))
  | inr unset ↦ let found : none ≡ some value = rw unset at set in cc
]

load_config-startup_example :
    ((environment "MQTT_URL" ≡ none) × (e : String) × (load_config envconfig ≡ thrown e))
    ⊎ ((mqtt : String) × (cfg : Settings) × (environment "MQTT_URL" ≡ some mqtt)
        × (load_config envconfig ≡ returned cfg)
        × (cfg.mqtt_url ≡ mqtt)
        × (handler_options cfg
            ≡ logging ∷ validation ∷ when_set (environment "IDM_URL") (λ url. authorization ∷ [])
              ++ when_set (environment "TYPE_SERVER") (λ url. type_server_codec url ∷ []))
        × (servers_of cfg
            ≡ record { address = option_or (environment "LISTEN") ":8090"; server_key = "public" }
              ∷ record {
                address = option_or (environment "ADMIN_LISTEN") ":8091";
                server_key = "admin";
              }
              ∷ [])
        × (bundles_of cfg (λ path. none)
            ≡ when_set (environment "AUTOMATION_PATH") (λ path. option_or none [])))
load_config-startup_example =
    load_config-startup envconfig environment (λ path. none) envconfig-Documented
      environment-NonEmpty
