-- ===== src/Core/Callbacks.antt =====
-- internal/automation/core.go: which callbacks the loop of onEvent hands to the event loop, and what
-- it reports of them.
use Prim.Native.String.{◌++◌ as append_text}
use mathlib.Core.List.{append_assoc, append-nil}
use events_service.Base.{
  ℕ, List, [], ◌∷◌, ◌++◌, Bool, true, String, none, done, ◌≡◌, ◌≢◌, refl, sym, ◌∙◌, ap, arith, All,
  Option-cases, inl, inr, ◌>>=◌,
}
use events_service.Base.Try.{Try, returned, thrown}
use events_service.Broker.{Event}
use events_service.Broker.Dispatch.{next_drain, later_drains}
use events_service.Connect.Messages.{Messages, MessageError, convert_proto_message}
use events_service.Core.{
  Core, CoreEnv, Job, OperationRequest, submitted, operation_request, wrap_operation,
  call_converted, handle_event, consume,
}

module _ {V : Type 0} where
  -- The call that an event stands for.
  abbrev pub call_of : ℕ → Try MessageError V → List (Job V)
  call_of callable (thrown e) = []
  call_of callable (returned o) = record { callable = callable; args = o ∷ [] } ∷ []

  -- The calls that events stand for, in their order.
  abbrev pub calls_of : {D : Type 0} → Messages D Event V → ℕ → List Event → List (Job V)
  calls_of ms callable [] = []
  calls_of ms callable (m ∷ es) =
      call_of callable (convert_proto_message ms m) ++ calls_of ms callable es

  -- If the operations service registers what it is asked to, a wrapped callback reaches the loop
  -- all the same, behind what was handed over before.
  pub submitted-wrap_operation :
      (env : CoreEnv V) (c : Core V) (callable : ℕ) (kind : String) (args : List V) (ran : Bool)
      → ((req : OperationRequest) → env.registers req ≡ true)
      → submitted (wrap_operation env c callable kind args ran).loop
        ≡ submitted c.loop ++ record { callable = callable; args = args } ∷ []
  unfolding wrap_operation
  submitted-wrap_operation env c callable kind args ran reg =
      let job : Job V = record { callable = callable; args = args } in
      ground (
        arith,
        reg (operation_request c kind),
        append_assoc c.loop.called c.loop.queue (job ∷ []),
        append-nil (c.loop.called ++ (c.loop.queue ++ job ∷ [])),
      )

  module _ {D : Type 0} (env : CoreEnv V) (ms : Messages D Event V) (event : String)
      (callable : ℕ) where
    handle_event-done :
        (c : Core V) (m : Event) (ran : Bool)
        → m.event ≢ none
        → handle_event env ms event callable c m ran
          ≡ done (call_converted env ms event callable c ran (convert_proto_message ms m))
    unfolding handle_event
    handle_event-done c m ran has = elim (Option-cases m.event) [
      | inl lacks ↦ absurd (has lacks)
      | inr (any, e) ↦ ground arith
    ]

    -- One round of the loop.
    pub consume-cons :
        (c : Core V) (m : Event) (es : List Event) (rs : List Bool)
        → m.event ≢ none
        → consume env ms event callable c (m ∷ es) rs
          ≡ consume env ms event callable
              (call_converted env ms event callable c (next_drain rs) (convert_proto_message ms m))
              es
              (later_drains rs)
    unfolding consume
    consume-cons c m es rs has =
        ap (λ r. r >>= λ c₁. consume env ms event callable c₁ es (later_drains rs))
          (handle_event-done c m (next_drain rs) has)

  module _ {D : Type 0} (env : CoreEnv V) (ms : Messages D Event V) (event : String) (callable : ℕ)
      (registers : (req : OperationRequest) → env.registers req ≡ true) where
    submitted-call_converted :
        (c : Core V) (ran : Bool) (t : Try MessageError V)
        → submitted (call_converted env ms event callable c ran t).loop
          ≡ submitted c.loop ++ call_of callable t
    submitted-call_converted c ran (thrown e) = sym (append-nil (submitted c.loop))
    submitted-call_converted c ran (returned o) =
        submitted-wrap_operation env c callable (append_text "event:" (env.quote event)) (o ∷ [])
          ran registers

    -- The loop of onEvent goes through all events of its channel that have their event field, and
    -- hands to the event loop one call of the callback for each event that can be converted, in the
    -- order of the events, behind what was handed over before; an event that cannot be converted is
    -- passed over. (The operations service registers what it is asked to.)
    pub consume-submits :
        (c : Core V) (es : List Event) (rs : List Bool)
        → All (λ m. m.event ≢ none) es
        → (c' : Core V) × (consume env ms event callable c es rs ≡ done c')
          × (submitted c'.loop ≡ submitted c.loop ++ calls_of ms callable es)
    unfolding consume
    consume-submits c [] rs have = (c, refl, sym (append-nil (submitted c.loop)))
    consume-submits c (m ∷ es) rs (has, have) =
        let o = convert_proto_message ms m in
        let next = call_converted env ms event callable c (next_drain rs) o in
        let (c', run, more) = consume-submits next es (later_drains rs) have in
        (
          c',
          consume-cons env ms event callable c m es rs has ∙ run,
          more
              ∙ ap (λ l. l ++ calls_of ms callable es)
                  (submitted-call_converted c (next_drain rs) o)
              ∙ append_assoc (submitted c.loop) (call_of callable o) (calls_of ms callable es),
        )
