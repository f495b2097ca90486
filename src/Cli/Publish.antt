-- ===== src/Cli/Publish.antt =====
-- cmds/eventcli/cmds/publish.go: from the command line to the subscribers of the service.
use events_service.Base.{
  ℕ, List, [], ◌∷◌, ◌++◌, String, Bool, true, false, Option, none, some, done, ◌≡◌, refl, ◌∙◌, ap,
  arith, Outcome, >>=-eq-done, replicate, count, nat_eq,
}
use events_service.Chan.{history}
use events_service.Broker.{Env, World, Event, AnyMessage, receivers_of, publish_call, make_topic}
use events_service.Broker.Delivery.{dispatch_key}
use events_service.Broker.Dispatch.{handle_message}
use events_service.Broker.Dispatch.Laws.{AllOpen, AllRoom}
use events_service.Broker.System.{publish}
use events_service.Broker.System.Publishing.{publish-Published, publish-handle_message}
use events_service.Service.{service_publish}
use events_service.Cli.{
  DayTime, RpcError, Finished, day_time, event_of, rpc_publish, ended, publish_command,
}

service_publish-taken :
    (env : Env) (w w' : World) (evt : Event)
    → service_publish env w evt ≡ done (w', none)
    → publish env w evt ≡ done (w', none)
unfolding service_publish
service_publish-taken env w w' evt h = ground arith

-- A call that the service took was a publication of its broker.
rpc_publish-taken :
    (refuses : Event → Outcome (Option String)) (env : Env) (w w' : World) (evt : Event)
    → rpc_publish refuses env w evt ≡ done (w', none)
    → publish env w evt ≡ done (w', none)
unfolding rpc_publish
rpc_publish-taken refuses env w w' evt h =
    let (refused, asked, sends) = >>=-eq-done (refuses evt) _ h in
    service_publish-taken env w w' evt (ground arith)

command-taken :
    (pack : DayTime → Option AnyMessage) (name : String) (refuses : Event → Outcome (Option String))
    (env : Env) (w : World) (pb : AnyMessage) (f : Finished)
    → pack day_time ≡ some pb
    → publish_command pack name refuses env w ≡ done f
    → f.status ≡ 0
    → publish env w (event_of pb) ≡ done (f.world, none)
unfolding publish_command
command-taken pack name refuses env w pb f packs run ok =
    let ((w', err), asked, ends) =
      >>=-eq-done (rpc_publish refuses env w (event_of pb)) _
        (rw (publish_command, packs) at run) in
    by_error w' err asked (cc ends)
  where
    by_error :
        (w' : World) (err : Option RpcError)
        → rpc_publish refuses env w (event_of pb) ≡ done (w', err)
        → ended name pb (w', err) ≡ f
        → publish env w (event_of pb) ≡ done (f.world, none)
    by_error w' none asked same =
        rpc_publish-taken refuses env w f.world (event_of pb)
          (asked ∙ ap (λ (g : Finished). done (g.world, none)) same)
    by_error w' (some e) asked same =
        let one : 1 ≡ f.status = ap (λ (g : Finished). g.status) same in
        absurd (omega (arith, one, ok))

-- Where the command publish ends with the status 0, the time of day has gone to MQTT, and once MQTT
-- delivers its bytes to the service, every channel that is registered for its type gets it, as
-- often as it is registered, and no other channel gets anything. (The receivers are open and have
-- room, Unmarshal reads back what Marshal wrote for the event, and proto.Clone gives an equal
-- event.)
pub publish_command-handle_message :
    (pack : DayTime → Option AnyMessage) (name : String) (refuses : Event → Outcome (Option String))
    (env : Env) (w : World) (pb : AnyMessage) (f : Finished) (ds : List Bool)
    → ((e : Event) → env.clone e ≡ e)
    → ((blob : List ℕ)
        → env.marshal (event_of pb) ≡ some blob
        → env.unmarshal blob ≡ some (event_of pb))
    → pack day_time ≡ some pb
    → publish_command pack name refuses env w ≡ done f
    → f.status ≡ 0
    → AllOpen w.chans (receivers_of w.broker (dispatch_key pb))
    → AllRoom w.chans (receivers_of w.broker (dispatch_key pb))
    → (blob : List ℕ) × (client : ℕ) × (f.world.calls
        ≡ w.calls
          ++ record {
            client = client;
            call = publish_call (make_topic pb.type_url) false blob;
            accepted = true;
          }
            ∷ [])
      × (w' : World) × (handle_message env f.world (record { payload = blob; retained = false }) ds
          ≡ done w')
      × ((c : ℕ)
          → history (w'.chans c)
            ≡ history (w.chans c)
              ++ replicate (count c (receivers_of w.broker (dispatch_key pb))) (event_of pb))
publish_command-handle_message pack name refuses env w pb f ds clones reads packs run ok open_
      room =
    let sends = command-taken pack name refuses env w pb f packs run ok in
    let p = publish-Published env w f.world (event_of pb) sends in
    let ((client, sent), (w', handled, delivered)) =
      publish-handle_message env w f.world (event_of pb) pb p.blob ds clones
        (reads p.blob p.marshalled) p.marshalled refl sends open_ room in
    (p.blob, client, sent, w', handled, delivered)
