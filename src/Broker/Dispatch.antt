-- ===== src/Broker/Dispatch.antt =====
-- internal/broker/broker.go, handleMessage: an MQTT message goes to the receivers of its type URL.
pub mod Laws
use events_service.Base.{
  ℕ, List, [], ◌∷◌, Bool, true, false, String, Option, none, some, Outcome, done, panic,
  nil_pointer, ◌>>=◌, if◌then◌else◌, insert, lookup,
}
use events_service.Text.{trim_prefix}
use events_service.Chan.{Chans, update, send_or_timeout}
use events_service.Broker.{Env, Event, World, Broker, google_prefix, receivers_of}

-- mqtt.Message: the payload and the retained flag
pub record Message : Type 0 where
  pub payload : List ℕ
  pub retained : Bool

-- Whether the next receiver, if it is busy, makes room within the five seconds.
abbrev pub next_drain : List Bool → Bool
next_drain [] = false
next_drain (d ∷ ds) = d

abbrev pub later_drains : List Bool → List Bool
later_drains [] = []
later_drains (d ∷ ds) = ds

-- the loop over b.receivers[typeUrl]; each receiver gets a clone
unfoldable pub fan_out : Env → Event → List ℕ → List Bool → Chans Event → Outcome (Chans Event)
unfolding send_or_timeout
fan_out env pb [] ds cs = done cs
fan_out env pb (r ∷ rs) ds cs = do
  ch ← send_or_timeout (cs r) (env.clone pb) (next_drain ds)
  fan_out env pb rs (later_drains ds) (update cs r ch)

-- pb.Retained = true for a retained message
abbrev pub mark_retained : Bool → Event → Event
mark_retained r pb = if r then record pb { retained = true } else pb

abbrev pub store_retained : Bool → String → Event → Broker → Broker
store_retained r url pb b =
    if r then record b { retained_msgs = insert url pb b.retained_msgs } else b

-- The handler behind the decoding: pb.Event is dereferenced with no check.
unfoldable pub dispatch : Env → World → Event → Bool → List Bool → Outcome World
unfolding fan_out trim_prefix lookup insert
dispatch env w pb r ds = elim pb.event [
  | none ↦ panic nil_pointer
  | some any ↦ do
    let url = trim_prefix any.type_url google_prefix
    let pb' = mark_retained r pb
    let b = store_retained r url pb' w.broker
    cs ← fan_out env pb' (receivers_of b url) ds w.chans
    done (record w { broker = b; chans = cs })
]

-- handleMessage: a payload that does not decode is logged and dropped
unfoldable pub handle_message : Env → World → Message → List Bool → Outcome World
unfolding dispatch
handle_message env w m ds = elim (env.unmarshal m.payload) [
  | none ↦ done w
  | some pb ↦ dispatch env w pb m.retained ds
]
