-- ===== src/Core.antt =====
-- internal/automation/core.go: the functions schedule, clearSchedule, on and publish of scripts, and
-- the event loop on which their callbacks run. A callback is known by a number. The event loop, the
-- scheduler and the operations service are other packages'.
pub mod Callbacks
pub mod Events
pub mod Schedules
pub mod Publications
use Prim.Native.String.{◌++◌ as append_text}
use events_service.Base.{
  ℕ, List, [], ◌∷◌, ◌++◌, Bool, true, false, ◌&&◌, String, Option, none, some, Outcome, done, panic,
  nil_pointer, ◌>>=◌, if◌then◌else◌,
}
use events_service.Base.Try.{Try, returned, thrown}
use events_service.Chan.{make, update}
use events_service.Broker.{World, Event, Env, subscribe}
use events_service.Broker.Dispatch.{next_drain, later_drains}
use events_service.Broker.System.{PublishError, publish}
use events_service.Connect.Messages.{Messages, MessageError, object_to_proto, convert_proto_message}
use events_service.Engine.{AutomationAnnotation, Engine}

-- A callback with its arguments, `this` being null.
pub record Job (V : Type 0) : Type 0 where
  pub callable : ℕ
  pub args : List V

-- eventloop.EventLoop: what waits, oldest first, and what it has called so far.
pub record EventLoop (V : Type 0) : Type 0 where
  pub queue : List (Job V)
  pub called : List (Job V)

pub record OperationRequest : Type 0 where
  pub kind : String
  pub owner : String
  pub description : String
  pub headers : List (String × String)

-- What the operations service is told: that an operation ended with a result, or with an error; or
-- that it could not be registered.
pub data Report (V : Type 0) : Type 0 where
  completed : OperationRequest → Option V → Report V
  failed : OperationRequest → Report V
  unregistered : OperationRequest → Report V

-- The variables result and resultErr, which the callback assigns and the closure of op.Wrap returns.
pub record Variables (V : Type 0) : Type 0 where
  pub result : Option V
  pub failing : Bool

-- What the core module has to do with: its engine's name, configuration and loop, and the reports.
pub record Core (V : Type 0) : Type 0 where
  pub name : String
  pub config : AutomationAnnotation
  pub loop : EventLoop V
  pub reports : List (Report V)

-- What a callback returns after the calls before it, or that it throws; whether the operations
-- service is found, and registers an operation; and fmt's %q.
pub record CoreEnv (V : Type 0) : Type 0 where
  pub call : List (Job V) → Job V → Option V
  pub longrunning : Bool
  pub registers : OperationRequest → Bool
  pub quote : String → String

-- What a call of scheduler.AddFunc holds on to.
pub record Entry : Type 0 where
  pub spec : String
  pub callable : ℕ

-- cron.Cron with its state S.
pub record Scheduler (S : Type 0) : Type 0 where
  pub add_func : S → String → Entry → Option (S × ℕ)
  pub remove : S → ℕ → S
  pub entry : S → ℕ → Option Entry

module _ {V : Type 0} where
  -- Every job that was ever handed to the loop, oldest first.
  abbrev pub submitted : EventLoop V → List (Job V)
  submitted l = l.called ++ l.queue

  -- RunOnLoop
  unfoldable pub run_on_loop : EventLoop V → Job V → EventLoop V
  run_on_loop l job = record l { queue = l.queue ++ job ∷ [] }

  -- The loop runs what waits.
  unfoldable pub drain : EventLoop V → EventLoop V
  drain l = record { queue = []; called = l.called ++ l.queue }

  abbrev pub unset : Variables V
  unset = record { result = none; failing = false }

  abbrev pub assigned : Option V → Variables V
  assigned (some v) = record { result = some v; failing = false }
  assigned none = record { result = none; failing = true }

  -- What the operations service makes of the two.
  abbrev pub report_of : OperationRequest → Variables V → Report V
  report_of req vs = if vs.failing then failed req else completed req vs.result

  -- NewCoreModule, for the engine that it belongs to. The module reads the configuration of the engine
  -- when a callback runs, and by then the options have been applied.
  pub new_core_module : Engine → Core V
  new_core_module e = record {
    name = e.name;
    config = e.automation_config;
    loop = record { queue = []; called = [] };
    reports = [];
  }

  unfoldable pub operation_request : Core V → String → OperationRequest
  operation_request c kind = record {
    kind = kind;
    owner = "automation";
    description = c.name;
    headers = c.config.connect_headers;
  }

  -- The closure of op.Wrap: RunOnLoop only hands the callback over. `ran` is whether the loop has
  -- called it by the time that the closure reads the variables.
  unfoldable pub in_operation : CoreEnv V → Core V → OperationRequest → Job V → Bool → Core V
  unfolding run_on_loop drain
  in_operation env c req job ran =
      let waiting = run_on_loop c.loop job in
      let variables = if ran then assigned (env.call (submitted c.loop) job) else unset in
      record c {
        loop = if ran then drain waiting else waiting;
        reports = c.reports ++ report_of req variables ∷ [];
      }

  -- wrapOperation; a service that is not found is logged, and the callback runs by itself
  unfoldable pub wrap_operation : CoreEnv V → Core V → ℕ → String → List V → Bool → Core V
  unfolding in_operation run_on_loop operation_request
  wrap_operation env c callable kind args ran =
      let job : Job V = record { callable = callable; args = args } in
      let req = operation_request c kind in
      if c.config.wrap_in_operation && env.longrunning
      then (if env.registers req
          then in_operation env c req job ran
          else record c { reports = c.reports ++ unregistered req ∷ [] })
      else record c { loop = run_on_loop c.loop job }

  module _ {D : Type 0} (env : CoreEnv V) (ms : Messages D Event V) (event : String)
      (callable : ℕ) where
    -- The call for an event, if it could be converted.
    abbrev pub call_converted : Core V → Bool → Try MessageError V → Core V
    call_converted c ran (thrown e) = c
    call_converted c ran (returned o) =
        wrap_operation env c callable (append_text "event:" (env.quote event)) (o ∷ []) ran

    -- The body of the loop of onEvent. The type URL of m.Event is logged with no check for nil.
    unfoldable pub handle_event : Core V → Event → Bool → Outcome (Core V)
    unfolding convert_proto_message
    handle_event c m ran = elim m.event [
      | none ↦ panic nil_pointer
      | some any ↦ done (call_converted c ran (convert_proto_message ms m))
    ]

    -- The loop of onEvent over the events that its channel yields.
    unfoldable pub consume : Core V → List Event → List Bool → Outcome (Core V)
    unfolding handle_event
    consume c [] rs = done c
    consume c (m ∷ es) rs = do
      c' ← handle_event c m (next_drain rs)
      consume c' es (later_drains rs)

  -- The callback of scheduler.AddFunc, when its time has come.
  unfoldable pub trigger : {S : Type 0} → CoreEnv V → Scheduler S → S → Core V → ℕ → Bool → Core V
  unfolding wrap_operation
  trigger env sch s c id ran = elim (sch.entry s id) [
    | none ↦ c
    | some e ↦ wrap_operation env c e.callable (append_text "schedule:" (env.quote e.spec)) [] ran
  ]

-- onEvent as far as the subscription: the channel is `ch`, and its reader starts only afterwards.
unfoldable pub on_event : World → String → ℕ → Outcome World
unfolding subscribe
on_event w event ch = subscribe (record w { chans = update w.chans ch (make 100) }) event ch false

-- schedule; the number of the entry, or -1 with an error
pub data Scheduled : Type 0 where
  entry_id : ℕ → Scheduled
  minus_one : Scheduled

abbrev pub scheduled : {S : Type 0} → S → Option (S × ℕ) → S × Scheduled
scheduled s none = (s, minus_one)
scheduled s (some (s', id)) = (s', entry_id id)

unfoldable pub schedule : {S : Type 0} → Scheduler S → S → String → ℕ → S × Scheduled
schedule sch s spec callable =
    scheduled s (sch.add_func s spec (record { spec = spec; callable = callable }))

-- clearSchedule
unfoldable pub clear_schedule : {S : Type 0} → Scheduler S → S → ℕ → S
clear_schedule sch s id = sch.remove s id
