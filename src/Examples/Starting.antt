-- ===== src/Examples/Starting.antt =====
-- The start of the service at concrete inputs.
use events_service.Base.{
  List, Option, some, none, ◌≢◌, [], ◌∷◌, ◌++◌, All, map, true, false, Bool, String, done, ◌≡◌, ◌⊎◌,
  refl,
}
use events_service.Base.Try.{Try, returned, thrown}
use events_service.Engine.{with_discoverer}
use events_service.Modules.{Registry}
use events_service.Bundle.{Bundle, PrepareEnv, vars_missing}
use events_service.Startup.{
  Stage, Settings, Server, Started, Context, RemoteUser, startup, before_bundles, after_bundles,
  bundles_of, user_at, service_account,
}
use events_service.Startup.Bundles.{prepared_alone}
use events_service.Startup.Servers.{startup-ends}
use events_service.Bundle.Discover.{discover}
use events_service.Bundle.Load.{load}
use events_service.Examples.Loading.{discover_env, disk, loaded}

abbrev settings : Settings
settings = record {
  idm_url = "http://idm";
  mqtt_url = "tcp://mqtt:1883";
  allowed_origins = "*" ∷ [];
  script_path = "/b";
  listen_address = ":8080";
  admin_listen_address = ":8081";
  automation = record { type_server_url = ""; connect_services = [] };
}

abbrev scripts : Bundle → PrepareEnv
scripts b = record {
  vars_json = vars_missing;
  settable = λ name. true;
  script_runs = λ script. done true;
}

abbrev registry : Registry
registry = record { lock = record { readers = 0; writer = false }; modules = [] }

abbrev discovered : Option (List Bundle)
discovered = some (loaded ∷ [])

discovers : discover discover_env 2 disk ("b" ∷ []) ≡ some (disk, discovered)
unfolding discover load
discovers = refl

abbrev all_pass : Stage → Bool
all_pass s = true

startup-ends_example :
    ((s : Stage) × (true ≡ false)
      × (startup all_pass settings (λ path. discovered) scripts 1 2 registry ≡ done (thrown s)))
    ⊎ (All (λ s. all_pass s ≡ true) (before_bundles ++ after_bundles)
        × (e : Started) × (startup all_pass settings (λ path. discovered) scripts 1 2 registry
            ≡ done (returned e))
        × (map
              (prepared_alone scripts settings.automation 1 (with_discoverer 2 ∷ []) registry)
              (bundles_of settings (λ path. discovered))
            ≡ map done e.prepared)
        × (public_server : Server) × (admin_server : Server) × (e.servers
            ≡ public_server ∷ admin_server ∷ [])
        × (public_server.address ≡ ":8080")
        × (admin_server.address ≡ ":8081")
        × ((ctx : Context) (peer : String) (header : Try String RemoteUser)
            → ((settings.idm_url ≡ "")
                × (user_at settings public_server ctx peer header ≡ none)
                × (user_at settings admin_server ctx peer header ≡ none))
              ⊎ ((settings.idm_url ≢ "")
                  × (user_at settings public_server ctx peer header ≡ some header)
                  × (user_at settings admin_server ctx peer header
                      ≡ some (returned (service_account peer))))))
startup-ends_example =
    startup-ends discover_env 2 disk disk ("b" ∷ []) discovered discovers all_pass settings scripts
      1 2 registry refl (λ b script. (true, refl))
