-- ===== src/Broker/Delivery.antt =====
-- internal/broker/broker.go: from an MQTT message to the channels of the subscribers.
use events_service.Base.{
  ℕ, ◌≤◌, List, ◌++◌, String, Bool, some, done, ◌≡◌, arith, replicate, count, lookup, lookup-insert,
  eq_refl, string_eq, nat_eq, if◌then◌else◌,
}
use events_service.Text.{trim_prefix}
use events_service.Chan.{Chans, history}
use events_service.Broker.{Env, Event, AnyMessage, World, google_prefix, receivers_of}
use events_service.Broker.Dispatch.{
  Message, mark_retained, store_retained, fan_out, dispatch, handle_message,
}
use events_service.Broker.Dispatch.Laws.{AllOpen, AllRoom, fan_out_room, fan_out_open}

-- The key under which handleMessage looks for receivers.
abbrev pub dispatch_key : AnyMessage → String
dispatch_key any = trim_prefix any.type_url google_prefix

module _ (env : Env) (w : World) (m : Message) (ds : List Bool) (pb : Event) (any : AnyMessage)
    (decodes : env.unmarshal m.payload ≡ some pb) (has_event : pb.event ≡ some any)
    (clones : (e : Event) → env.clone e ≡ e) where
  pub handle_message_lem :
      (cs : Chans Event)
      → fan_out env
          (mark_retained m.retained pb)
          (receivers_of w.broker (dispatch_key any))
          ds
          w.chans
        ≡ done cs
      → handle_message env w m ds
        ≡ done (record w {
          broker =
              store_retained m.retained (dispatch_key any) (mark_retained m.retained pb) w.broker;
          chans = cs;
        })
  unfolding handle_message dispatch
  handle_message_lem cs e = ground arith

  -- A message whose payload decodes to an event is handed to the receivers of its type URL: if
  -- these are open and have room, the handler ends, every channel gets the event (marked retained
  -- if the message is) exactly as often as it is registered, all other channels get nothing, the
  -- registrations stay, and a retained message, and no other, replaces the stored one.
  -- (proto.Clone gives an equal event.)
  pub handle_message_delivers :
      AllOpen w.chans (receivers_of w.broker (dispatch_key any))
      → AllRoom w.chans (receivers_of w.broker (dispatch_key any))
      → (w' : World) × (handle_message env w m ds ≡ done w')
        × ((c : ℕ)
            → history (w'.chans c)
              ≡ history (w.chans c)
                ++ replicate
                    (count c (receivers_of w.broker (dispatch_key any)))
                    (mark_retained m.retained pb))
        × (w'.broker.receivers ≡ w.broker.receivers)
        × (lookup (dispatch_key any) w'.broker.retained_msgs ≡ (
            if m.retained
            then some (mark_retained m.retained pb)
            else lookup (dispatch_key any) w.broker.retained_msgs))
  unfolding handle_message
  handle_message_delivers o r =
      let (cs, e, h) =
        fan_out_room env (mark_retained m.retained pb) (clones _)
          (receivers_of w.broker (dispatch_key any)) ds w.chans o r in
      (
        record w {
          broker =
              store_retained m.retained (dispatch_key any) (mark_retained m.retained pb) w.broker;
          chans = cs;
        },
        handle_message_lem cs e,
        h,
        ground arith,
        ground (
          arith,
          lookup-insert (dispatch_key any) (dispatch_key any) (mark_retained m.retained pb)
              w.broker.retained_msgs,
          eq_refl (dispatch_key any),
        ),
      )

  -- If the receivers of its type URL are open, a message that decodes to an event is always handled
  -- to the end, whether or not their buffers are full: each history grows by copies of the event, at most one for each
  -- registration, nothing else is sent, no channel is closed, and the registrations stay.
  -- (proto.Clone gives an equal event.)
  pub handle_message_isolates :
      AllOpen w.chans (receivers_of w.broker (dispatch_key any))
      → (w' : World) × (handle_message env w m ds ≡ done w')
        × ((c : ℕ)
            → (n : ℕ) × (n ≤ count c (receivers_of w.broker (dispatch_key any)))
              × (history (w'.chans c)
                  ≡ history (w.chans c) ++ replicate n (mark_retained m.retained pb)))
        × ((c : ℕ) → (w'.chans c).closed ≡ (w.chans c).closed)
        × (w'.broker.receivers ≡ w.broker.receivers)
  unfolding handle_message
  handle_message_isolates o =
      let (cs, e, h, k) =
        fan_out_open env (mark_retained m.retained pb) (clones _)
          (receivers_of w.broker (dispatch_key any)) ds w.chans o in
      (
        record w {
          broker =
              store_retained m.retained (dispatch_key any) (mark_retained m.retained pb) w.broker;
          chans = cs;
        },
        handle_message_lem cs e,
        h,
        k,
        ground arith,
      )
