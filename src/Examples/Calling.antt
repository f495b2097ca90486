-- ===== src/Examples/Calling.antt =====
-- Service clients of scripts at concrete inputs.
use events_service.Base.{
  ℕ, List, [], ◌∷◌, true, false, String, none, some, done, lookup, ◌≡◌, ◌⊎◌, refl, if◌then◌else◌,
  ◌==◌, string_eq,
}
use events_service.Base.Try.{returned, thrown}
use events_service.Modules.{Registry}
use events_service.Engine.{Config, new_engine}
use events_service.Connect.{Discoverer, no_options}
use events_service.Connect.Messages.{Messages}
use events_service.Connect.Client.{
  Client, Net, Request, Response, CallError, do_call, RequestFor, ResultFor, do_call-sends,
}
use events_service.Base.{eq_iff, arith}
use events_service.Modules.{Module}
use events_service.Modules.Lookup.{Named, require_native}
use events_service.Engine.{Engine, apply_options, default_engine}
use events_service.Connect.Services.{
  Method, ServiceDescriptor, Found, service_descriptor, not_found, Services, ServiceObject,
  ServiceError, services_instance, js_service_name, client_of,
}
use events_service.Connect.Services.Lookup.{services_instance-client}
use events_service.Connect.Services.Failing.{services_module, new_engine-services}

-- A message is a list of bytes, and a value of a script a number, written as one byte.
abbrev messages : Messages ℕ (List ℕ) ℕ
messages = record {
  value_json = λ v. some (v ∷ []);
  json_message = λ d b. some b;
  message_json = λ m. some m;
  json_value = λ b. elim b [ [] ↦ none | v ∷ more ↦ some v ];
}

-- Every request is answered with its body.
abbrev echo : Net ℕ (List ℕ)
echo = record {
  canonical = λ key. key;
  new_request = λ url. true;
  answer = λ req. some (record { status_code = 200; body = some req.body });
  marshal = λ m. some m;
  unmarshal = λ d b. some b;
}

abbrev discover : Discoverer
discover q = if q == "tkd.calendar" then some ("10.0.0.1" ∷ []) else none

abbrev list_method : Method ℕ
list_method = record {
  name = record { first = "L"; rest = "istEvents" };
  is_streaming_client = false;
  is_streaming_server = false;
  input = 0;
  output = 1;
}

abbrev watch_method : Method ℕ
watch_method = record list_method {
  name = record { first = "W"; rest = "atch" };
  is_streaming_server = true;
}

abbrev calendar_service : String
calendar_service = "tkd.calendar.v1.CalendarService"

abbrev calendar : ServiceDescriptor ℕ
calendar = record { full_name = calendar_service; methods = list_method ∷ watch_method ∷ [] }

abbrev lower : String → String
lower s = if s == "Calendar" then "calendar" else if s == "L" then "l" else s

abbrev find : String → Found ℕ
find name = if name == calendar_service then service_descriptor calendar else not_found

abbrev client : Client ℕ
client = client_of lower [] calendar_service list_method

do_call-sends_example :
    (((do_call messages echo discover client 5 no_options).0 ≡ [])
      × (e : CallError) × ((do_call messages echo discover client 5 no_options).1 ≡ thrown e))
    ⊎ ((req : Request) × ((do_call messages echo discover client 5 no_options).0 ≡ req ∷ [])
        × RequestFor messages echo discover client 5 no_options req
        × (((e : CallError) × ((do_call messages echo discover client 5 no_options).1 ≡ thrown e))
            ⊎ ((v : ℕ) × ((do_call messages echo discover client 5 no_options).1 ≡ returned v)
                × (response : Response) × (echo.answer req ≡ some response)
                × ResultFor messages echo discover client response v)))
do_call-sends_example = do_call-sends messages echo discover client 5 no_options

abbrev unknown_services : Config
unknown_services = record {
  type_server_url = "http://types";
  connect_services = calendar_service ∷ "tkd.office.v1.OfficeService" ∷ [];
}

abbrev text : List ServiceError → String
text es = "services"

abbrev known_services : Config
known_services = record {
  type_server_url = "http://types";
  connect_services = calendar_service ∷ [];
}

abbrev known_module : Module
known_module = services_module lower [] find text 1 "http://types" (calendar_service ∷ [])

abbrev known_registry : Registry
known_registry = record {
  lock = record { readers = 0; writer = false };
  modules = ("services", known_module) ∷ [];
}

known_registry-Named : Named known_registry.modules
unfolding lookup
known_registry-Named k m h = ground (arith, eq_iff "services" k)

known_engine :
    (reg' : Registry) × (e : Engine) × (new_engine "reminders" known_services [] known_registry
      ≡ done (reg', some e))
unfolding new_engine services_instance js_service_name
known_engine = (_, _, refl)

services_instance-client_example :
    (s : Services ℕ) × (services_instance lower [] find "http://types" (calendar_service ∷ [])
      ≡ some s)
    × (s.errors ≡ [])
    × (require_native "services" known_engine.1.instances ≡ some 1)
    × (obj : ServiceObject ℕ) × (lookup "calendar" s.exports ≡ some obj)
    × (lookup "listEvents" obj ≡ some client)
unfolding js_service_name apply_options default_engine lookup
services_instance-client_example =
    services_instance-client lower [] find text 1 "reminders" known_services [] known_registry
      known_engine.0 known_engine.1 calendar_service [] [] calendar list_method []
      (watch_method ∷ []) known_engine.2 refl refl (refl, tt) known_registry-Named (λ e. cc) refl
      refl refl refl tt (λ e. cc, tt)

abbrev registry : Registry
registry = record {
  lock = record { readers = 0; writer = false };
  modules =
      (
        "services",
        services_module lower [] find text 1 "http://types" unknown_services.connect_services,
      )
      ∷ [];
}

new_engine-services_example :
    (reg' : Registry) × (new_engine "reminders" unknown_services [] registry ≡ done (reg', none))
unfolding new_engine
new_engine-services_example =
    new_engine-services lower [] find text 1 "reminders" unknown_services [] registry [] []
      "tkd.office.v1.OfficeService" (calendar_service ∷ []) [] (λ e. cc) refl (λ d e. cc) refl refl
      refl
