-- ===== src/Startup.antt =====
-- cmds/events-service/main.go: the start of the events service, up to its two servers, and whom a
-- request comes from. What the calls of other packages return enters by `returns`, and the bundles
-- that bundle.Discover returns as an argument.
pub mod Bundles
pub mod Configuration
pub mod Servers
use events_service.Base.{
  ℕ, List, [], ◌∷◌, ◌++◌, Bool, true, false, String, Option, none, some, Outcome, done, ◌>>=◌,
  if◌then◌else◌, ◌==◌, string_eq,
}
use events_service.Base.Try.{Try, returned, thrown}
use events_service.Text.{option_or}
use events_service.Engine.{EngineOption, with_discoverer, Config}
use events_service.Modules.{Registry}
use events_service.Bundle.{Bundle, PrepareEnv, PrepareError, prepare}

-- The calls whose error ends the process with os.Exit(-1), and discovery.Register, whose error does
-- not.
pub data Stage : Type 0 where
  load_config : Stage
  new_validator : Stage
  connect_broker : Stage
  new_service : Stage
  new_catalog : Stage
  register_service : Stage
  create_server : Stage
  create_admin_server : Stage
  serve : Stage

-- config.Config
pub record Settings : Type 0 where
  pub mqtt_url : String
  pub allowed_origins : List String
  pub idm_url : String
  pub script_path : String
  pub listen_address : String
  pub admin_listen_address : String
  pub automation : Config

-- What the handler of the service is made with, in this order.
pub data HandlerOption : Type 0 where
  logging : HandlerOption
  validation : HandlerOption
  authorization : HandlerOption
  type_server_codec : String → HandlerOption

-- server.CreateWithOptions of wrapWithKey: an address and the server key
pub record Server : Type 0 where
  pub address : String
  pub server_key : String

-- auth.RemoteUser
pub record RemoteUser : Type 0 where
  pub id : String
  pub display_name : String
  pub role_ids : List String
  pub admin : Bool

-- What the process has when it serves: the bundles, each with the error of its Prepare.
pub record Started : Type 0 where
  pub options : List HandlerOption
  pub prepared : List (Bundle × Option PrepareError)
  pub registry : Registry
  pub registered : Bool
  pub servers : List Server

-- The interceptors and the codec.
unfoldable pub handler_options : Settings → List HandlerOption
handler_options cfg =
    logging ∷ validation ∷ (if cfg.idm_url == "" then [] else authorization ∷ [])
    ++ (if cfg.automation.type_server_url == ""
        then []
        else type_server_codec cfg.automation.type_server_url ∷ [])

-- The loop over the bundles; an error of Prepare is logged, and the loop goes on.
unfoldable pub prepare_each :
    (Bundle → PrepareEnv)
    → Config
    → ℕ
    → List EngineOption
    → List Bundle
    → Registry
    → Outcome (List (Bundle × Option PrepareError) × Registry)
unfolding prepare
prepare_each envs cfg printer opts [] reg = done ([], reg)
prepare_each envs cfg printer opts (b ∷ bs) reg = do
  r ← prepare (envs b) cfg printer opts b reg
  rest ← prepare_each envs cfg printer opts bs r.1
  done ((r.0, r.2) ∷ rest.0, rest.1)

-- Discover's bundles, if there is a script path; an error of Discover is logged.
unfoldable pub bundles_of : Settings → (String → Option (List Bundle)) → List Bundle
bundles_of cfg discover =
    if cfg.script_path == "" then [] else option_or (discover cfg.script_path) []

unfoldable pub servers_of : Settings → List Server
servers_of cfg =
    record { address = cfg.listen_address; server_key = "public" }
    ∷ record { address = cfg.admin_listen_address; server_key = "admin" }
    ∷ []

-- The stages of main that end the process, before the bundles and after them.
abbrev pub before_bundles : List Stage
before_bundles = load_config ∷ new_validator ∷ connect_broker ∷ new_service ∷ new_catalog ∷ []

abbrev pub after_bundles : List Stage
after_bundles = create_server ∷ create_admin_server ∷ serve ∷ []

-- The first of the stages that returns an error.
unfoldable pub failed_stage : (Stage → Bool) → List Stage → Option Stage
failed_stage returns [] = none
failed_stage returns (s ∷ ss) =
    let later = failed_stage returns ss in if returns s then later else some s

abbrev pub started :
    (Stage → Bool) → Settings → List (Bundle × Option PrepareError) × Registry → Started
started returns cfg (prepared, reg) = record {
  options = handler_options cfg;
  prepared = prepared;
  registry = reg;
  registered = returns register_service;
  servers = servers_of cfg;
}

-- main: the stage that it exits at, or what it has when its servers stop.
unfoldable pub startup :
    (Stage → Bool)
    → Settings
    → (String → Option (List Bundle))
    → (Bundle → PrepareEnv)
    → ℕ
    → ℕ
    → Registry
    → Outcome (Try Stage Started)
unfolding failed_stage prepare_each bundles_of handler_options servers_of
startup returns cfg discover envs printer catalog reg = elim (failed_stage returns before_bundles) [
  | some s ↦ done (thrown s)
  | none ↦ do
    r ←
        prepare_each envs cfg.automation printer (with_discoverer catalog ∷ [])
          (bundles_of cfg discover) reg
    done (elim (failed_stage returns after_bundles) [
      | some s ↦ thrown s
      | none ↦ returned (started returns cfg r)
    ])
]

-- The context of a request, by its value of serverContextKey.
abbrev pub Context : Type 0
Context = Option String

-- wrapWithKey
abbrev pub wrap_with_key : String → Context → Context
wrap_with_key key ctx = some key

abbrev pub service_account : String → RemoteUser
service_account peer = record {
  id = "service-account";
  display_name = peer;
  role_ids = "idm_superuser" ∷ [];
  admin = true;
}

-- The extractor of the auth interceptor. `header` is what auth.RemoteHeaderExtractor returns.
unfoldable pub remote_user : Context → String → Try String RemoteUser → Try String RemoteUser
remote_user ctx peer header =
    if option_or ctx "" == "admin" then returned (service_account peer) else header

-- Whom the auth interceptor takes a request to a server to come from; without IDM_URL there is no such
-- interceptor.
unfoldable pub user_at :
    Settings → Server → Context → String → Try String RemoteUser → Option (Try String RemoteUser)
unfolding remote_user
user_at cfg s ctx peer header =
    if cfg.idm_url == ""
    then none
    else some (remote_user (wrap_with_key s.server_key ctx) peer header)
