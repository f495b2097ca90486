-- ===== src/Broker/System/Topics.antt =====
-- internal/broker/broker.go: the goroutines of Subscribe and UnsubscribeAll in either order.
use events_service.Base.{
  ℕ, List, [], ◌∷◌, map, String, true, false, some, done, ◌≡◌, refl, arith, lookup, lookup-insert,
  nat_eq, string_eq, contains, eq_refl, eq_iff, ◌∙◌,
}
use events_service.Broker.{
  World, Env, Entry, Call, subscribing, unsubscribing, subscribe_call, unsubscribe_call, make_topic,
  perform,
}
use events_service.Broker.System.{mark_topic, run_task}
use events_service.Broker.System.Reconnect.{is_subscribed, is_subscribed-perform}

contains-map :
    (url : String) (ts : List String)
    → contains url ts ≡ true
    → contains (make_topic url) (map make_topic ts) ≡ true
contains-map url [] h = cc
contains-map url (t ∷ ts) h =
    ground (arith, eq_iff t url, eq_refl (make_topic url), contains-map url ts)

module _ (env : Env) (client : ℕ) (url : String)
    (accepted : (es : List Entry) (call : Call) → env.accepts es client call ≡ true) where
  -- What an accepted subscription leaves behind.
  record Live (w : World) : Type 0 where
    connected : w.broker.conn ≡ some client
    marked : lookup url w.broker.topics ≡ some tt
    live : is_subscribed client (make_topic url) w.calls ≡ true

  subscribing-Live :
      (w : World)
      → w.broker.conn ≡ some client
      → (w' : World) × (run_task env w (subscribing url) ≡ done w') × Live w'
  unfolding run_task
  subscribing-Live w c =
      let call = subscribe_call (make_topic url) in
      let w' = (perform env w client call).0 in
      (
        mark_topic true url w',
        unfold perform in ground (arith, accepted w.calls call),
        record {
          connected = unfold perform in c;
          marked = lookup-insert url url tt w'.broker.topics ∙ rw eq_refl;
          live =
              is_subscribed-perform env w client call (make_topic url) (accepted w.calls call)
              ∙ rw eq_refl;
        },
      )

  unsubscribing_lem :
      (w : World) (cleanup : List String)
      → w.broker.conn ≡ some client
      → contains url cleanup ≡ true
      → (w' : World) × (run_task env w (unsubscribing cleanup) ≡ done w')
        × (w'.broker ≡ w.broker)
        × (is_subscribed client (make_topic url) w'.calls ≡ false)
  unfolding run_task
  unsubscribing_lem w cleanup c left =
      let call = unsubscribe_call (map make_topic cleanup) in
      (
        (perform env w client call).0,
        ground arith,
        unfold perform in refl,
        is_subscribed-perform env w client call (make_topic url) (accepted w.calls call)
            ∙ rw (contains-map url cleanup left),
      )

  module _ (w : World) (cleanup : List String) (connected : w.broker.conn ≡ some client)
      (left : contains url cleanup ≡ true) where
    -- If the goroutine of a new subscription runs before the one that leaves the topic for the
    -- subscribers before it, the broker has the topic marked and the client is not subscribed to
    -- it. In the other order the topic is marked and the client is subscribed. (The client accepts
    -- every call, and the broker is connected.)
    pub goroutine_order :
        ((w₁ : World) × (w₂ : World) × (run_task env w (subscribing url) ≡ done w₁)
          × (run_task env w₁ (unsubscribing cleanup) ≡ done w₂)
          × (lookup url w₂.broker.topics ≡ some tt)
          × (is_subscribed client (make_topic url) w₂.calls ≡ false))
        × ((w₁ : World) × (w₂ : World) × (run_task env w (unsubscribing cleanup) ≡ done w₁)
            × (run_task env w₁ (subscribing url) ≡ done w₂)
            × (lookup url w₂.broker.topics ≡ some tt)
            × (is_subscribed client (make_topic url) w₂.calls ≡ true))
    goroutine_order =
        let (w₁, e₁, l) = subscribing-Live w connected in
        let (w₂, e₂, b, off) = unsubscribing_lem w₁ cleanup l.connected left in
        let (v₁, f₁, b', _) = unsubscribing_lem w cleanup connected left in
        let (v₂, f₂, l') = subscribing-Live v₁ (rw b' connected) in
        ((w₁, w₂, e₁, e₂, rw b l.marked, off), (v₁, v₂, f₁, f₂, l'.marked, l'.live))
