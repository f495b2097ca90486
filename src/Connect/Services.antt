-- ===== src/Connect/Services.antt =====
-- internal/automation/modules/connect/module.go, NewModuleInstance and makeServiceClient: which
-- clients a script finds under which names. Descriptors are another package's.
pub mod Lookup
pub mod Failing
use Prim.Native.String.{◌++◌ as append_text}
use events_service.Base.{
  ℕ, List, [], ◌∷◌, ◌++◌, Bool, true, false, ◌||◌, String, Option, none, some, if◌then◌else◌, ◌==◌,
  string_eq, insert, lookup,
}
use events_service.FilePath.{split}
use events_service.Text.{trim_suffix}
use events_service.Modules.{Instantiated, failed, ignored, object}
use events_service.Connect.Client.{Client}

-- protoreflect.Name, which is never empty: its first letter, and the rest
pub record Name : Type 0 where
  pub first : String
  pub rest : String

-- protoreflect.MethodDescriptor, for descriptors D of messages
pub record Method (D : Type 0) : Type 0 where
  pub name : Name
  pub is_streaming_client : Bool
  pub is_streaming_server : Bool
  pub input : D
  pub output : D

-- protoreflect.ServiceDescriptor
pub record ServiceDescriptor (D : Type 0) : Type 0 where
  pub full_name : String
  pub methods : List (Method D)

-- What FindDescriptorByName finds: an error, the descriptor of a service, or another one.
pub data Found (D : Type 0) : Type 0 where
  not_found : Found D
  service_descriptor : ServiceDescriptor D → Found D
  other_descriptor : Found D

-- The errors that the module gathers, each for a name of a service.
pub data ServiceError : Type 0 where
  unknown_service : String → ServiceError
  no_service_descriptor : String → ServiceError

-- The object of one service: its clients by the names of their methods.
abbrev pub ServiceObject : Type 0 → Type 0
ServiceObject D = List (String × Client D)

-- `exports` and `merr`
pub record Services (D : Type 0) : Type 0 where
  pub exports : List (String × ServiceObject D)
  pub errors : List ServiceError

abbrev pub full : Name → String
full n = append_text n.first n.rest

-- The last of the parts; strings.Split gives at least one.
abbrev pub last_part : List String → String
last_part [] = ""
last_part (part ∷ []) = part
last_part (part ∷ next ∷ parts) = last_part (next ∷ parts)

-- `lower` is strings.ToLower
unfoldable pub js_service_name : (String → String) → String → String
unfolding split trim_suffix
js_service_name lower service = lower (trim_suffix (last_part (split b'.' service)) "Service")

abbrev pub method_name : (String → String) → Name → String
method_name lower n = append_text (lower n.first) n.rest

module _ {D : Type 0} (lower : String → String) (connect_headers : List (String × String)) where
  abbrev pub client_of : String → Method D → Client D
  client_of full_name m = record {
    service = full_name;
    method = full m.name;
    request = m.input;
    response = m.output;
    headers = connect_headers;
  }

  -- The loop over the methods; those that stream are left out.
  unfoldable pub set_methods : String → List (Method D) → ServiceObject D → ServiceObject D
  unfolding insert
  set_methods full_name [] obj = obj
  set_methods full_name (m ∷ ms) obj = set_methods full_name ms (
      if m.is_streaming_client || m.is_streaming_server
      then obj
      else insert (method_name lower m.name) (client_of full_name m) obj)

  -- makeServiceClient
  unfoldable pub make_service_client : String → String → Found D → Services D → Services D
  unfolding set_methods insert
  make_service_client pkgname service not_found s = record s {
    errors = s.errors ++ unknown_service service ∷ [];
  }
  make_service_client pkgname service other_descriptor s = record s {
    errors = s.errors ++ no_service_descriptor service ∷ [];
  }
  make_service_client pkgname service (service_descriptor d) s = record s {
    exports = insert pkgname (set_methods d.full_name d.methods []) s.exports;
  }

  module _ (find : String → Found D) where
    -- The loop over cfg.ConnectServices.
    unfoldable pub make_services : List String → Services D → Services D
    unfolding make_service_client js_service_name
    make_services [] s = s
    make_services (service ∷ services) s =
        make_services services
          (make_service_client (js_service_name lower service) service (find service) s)

    -- NewModuleInstance of the module `services`; `none` without a type server
    unfoldable pub services_instance : String → List String → Option (Services D)
    unfolding make_services
    services_instance type_server_url services =
        if type_server_url == ""
        then none
        else some (make_services services (record { exports = []; errors = [] }))

-- What the registry gets of it: the text of the errors, if there are any, or the object.
abbrev pub instantiated :
    {D : Type 0} → (List ServiceError → String) → ℕ → Option (Services D) → Instantiated
instantiated text exports none = ignored
instantiated text exports (some s) = elim s.errors [
  | [] ↦ object exports
  | e ∷ es ↦ failed (text s.errors)
]
