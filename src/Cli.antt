-- ===== src/Cli.antt =====
-- cmds/eventcli: the commands publish and subscribe. What anypb.New packs, the interceptors and the
-- transport between the command and the service, and the client of package events are arguments.
pub mod Publish
use events_service.Base.{
  ℕ, List, [], ◌∷◌, map, false, String, Option, none, some, Outcome, done, ◌>>=◌,
}
use events_service.Base.Try.{Try, returned, thrown}
use events_service.Broker.{Env, World, Event, AnyMessage}
use events_service.Service.{ServiceError, service_publish}

-- commonv1.DayTime
pub record DayTime : Type 0 where
  pub hour : ℕ
  pub minute : ℕ

-- Why c.Publish returns an error: it was refused on the way, or by the service.
pub data RpcError : Type 0 where
  refused_before : String → RpcError
  from_service : ServiceError → RpcError

pub data CommandError : Type 0 where
  not_packed : CommandError
  failed_to_publish : RpcError → CommandError

-- What the command logs; `fatal` ends the process with the status 1.
pub data Line : Type 0 where
  publishing : String → Line
  published : String → Line
  fatal : CommandError → Line

-- The end of a command: the state of the service, the lines, and the exit status.
pub record Finished : Type 0 where
  pub world : World
  pub lines : List Line
  pub status : ℕ

-- The event that the command publishes: 8:27.
abbrev pub day_time : DayTime
day_time = record { hour = 8; minute = 27 }

abbrev pub event_of : AnyMessage → Event
event_of pb = record { event = some pb; retained = false }

abbrev pub service_error : Option ServiceError → Option RpcError
service_error none = none
service_error (some e) = some (from_service e)

-- c.Publish, as it reaches the service. The call has no deadline: `refuses` may wait for ever.
unfoldable pub rpc_publish :
    (Event → Outcome (Option String)) → Env → World → Event → Outcome (World × Option RpcError)
unfolding service_publish
rpc_publish refuses env w evt = refuses evt >>= λ refused. elim refused [
  | some reason ↦ done (w, some (refused_before reason))
  | none ↦ do r ← service_publish env w evt; done (r.0, service_error r.1)
]

abbrev pub ended : String → AnyMessage → World × Option RpcError → Finished
ended name pb (w, none) = record {
  world = w;
  lines = publishing name ∷ published pb.type_url ∷ [];
  status = 0;
}
ended name pb (w, some e) = record {
  world = w;
  lines = publishing name ∷ published pb.type_url ∷ fatal (failed_to_publish e) ∷ [];
  status = 1;
}

-- The command publish: `name` is proto.MessageName of the DayTime.
unfoldable pub publish_command :
    (DayTime → Option AnyMessage)
    → String
    → (Event → Outcome (Option String))
    → Env
    → World
    → Outcome Finished
unfolding rpc_publish
publish_command pack name refuses env w = elim (pack day_time) [
  | none ↦ done (record { world = w; lines = fatal not_packed ∷ []; status = 1 })
  | some pb ↦ do r ← rpc_publish refuses env w (event_of pb); done (ended name pb r)
]

-- The client of package events: the error of Start, and the messages that the channel of
-- Subscribe yields until it is closed.
pub record EventsClient (M E : Type 0) : Type 0 where
  pub start : Option E
  pub subscribe : String → Try E (List M)

-- What the command subscribe leaves: the usage, an error, or what it printed.
pub data Shown (M E : Type 0) : Type 0 where
  usage : Shown M E
  failed_with : E → Shown M E
  printed : List M → Shown M E

-- The command subscribe; cobra.MinimumNArgs(1) refuses it without arguments.
pub subscribe_command : {M E : Type 0} → EventsClient M E → List String → Shown M E
subscribe_command ec [] = usage
subscribe_command ec (type_url ∷ others) = elim ec.start [
  | some e ↦ failed_with e
  | none ↦ elim (ec.subscribe type_url) [
    | thrown e ↦ failed_with e
    | returned messages ↦ printed messages
  ]
]
