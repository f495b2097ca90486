-- ===== src/Broker/System/Idle/Moves.antt =====
-- internal/broker: what keeps the topics subscribed, handler by handler and goroutine by goroutine.
use events_service.Base.{
  ℕ, List, [], ◌∷◌, Bool, true, ◌||◌, String, Option, none, some, done, ◌≡◌, refl, sym, ◌∙◌, ap,
  arith, inl, inr, Option-cases, Bool-cases, ◌==◌, string_eq, nat_eq, eq_iff, lookup, if◌then◌else◌,
}
use events_service.Chan.{Chans}
use events_service.Broker.{
  World, Env, Event, Entry, Call, Task, subscribing, make_topic, subscribe_call, publish_call,
  perform, resubscribe, handle_on_connect, start_if_new, subscribed,
}
use events_service.Broker.System.{
  run_task, pick, drop_joined, run_picked, publish, mark_topic, PublishError, marshal_failed,
  not_connected, publish_failed, run,
}
use events_service.Broker.System.Reconnect.{is_subscribed, is_subscribed-perform}
use events_service.Broker.System.Idle.Tasks.{
  waits, marked, marked-insert, marked-lookup, waits-append, waits-drop_joined, calm, calm-append,
  calm-drop_joined, pick-calm,
}

module _ (env : Env) (topic : String)
    (accepted : (es : List Entry) (client : ℕ) (call : Call)
      → env.accepts es client call ≡ true) where
  -- The goroutines are calm, and where the topic is marked, the client of the connection is
  -- subscribed to it.
  pub record Kept (w : World) : Type 0 where
    pub calm_tasks : calm w.tasks ≡ true
    pub live :
        (client : ℕ)
        → marked topic w.broker.topics ≡ true
        → w.broker.conn ≡ some client
        → is_subscribed client topic w.calls ≡ true

  -- The topic is marked, or a goroutine will see to it.
  abbrev pub covered : World → Bool
  covered w = waits topic w.tasks || marked topic w.broker.topics

  -- What a step leaves: covered if it was, and kept.
  pub record Goes (w w' : World) : Type 0 where
    pub kept : Kept w'
    pub covers : covered w ≡ true → covered w' ≡ true

  -- A step that leaves the topics, the connection, the calls and the goroutines alone.
  pub Goes-same :
      (w w' : World)
      → w'.broker.topics ≡ w.broker.topics
      → w'.broker.conn ≡ w.broker.conn
      → w'.calls ≡ w.calls
      → w'.tasks ≡ w.tasks
      → Kept w
      → Goes w w'
  Goes-same w w' t c l k v = record {
    kept = record {
      calm_tasks = rw k v.calm_tasks;
      live = λ client m h. rw l (v.live client (sym (ap (marked topic) t) ∙ m) (sym c ∙ h));
    };
    covers = λ h. rw (t, k) h;
  }

  pub start_if_new-tasks :
      (o : Option (Unit {0})) (url : String) (ts : List Task)
      → calm ts ≡ true
      → (calm (start_if_new o url ts) ≡ true)
        × (waits topic ts ≡ true → waits topic (start_if_new o url ts) ≡ true)
  start_if_new-tasks (some x) url ts h = (h, λ k. k)
  start_if_new-tasks none url ts h =
      (calm-append ts url h, λ k. ground (arith, waits-append topic ts (subscribing url ∷ [])))

  pub subscribed-Goes :
      (w : World) (url : String) (c : ℕ) (cs : Chans Event)
      → Kept w
      → Goes w (subscribed w url c cs)
  subscribed-Goes w url c cs v =
      let (calm_tasks, still) =
        start_if_new-tasks (lookup url w.broker.topics) url w.tasks v.calm_tasks in
      record {
        kept = record { calm_tasks = calm_tasks; live = v.live };
        covers = λ h. ground (arith, still);
      }

  -- A subscription to the topic is covered.
  pub covered-subscribed :
      (w : World) (url : String) (c : ℕ) (cs : Chans Event)
      → make_topic url ≡ topic
      → covered (subscribed w url c cs) ≡ true
  covered-subscribed w url c cs same = elim (Option-cases (lookup url w.broker.topics)) [
    | inl new ↦ rw new (
        ground (
          arith,
          waits-append topic w.tasks (subscribing url ∷ []),
          eq_iff (make_topic url) topic,
          same,
        ))
    | inr (x, known) ↦
        rw known (ground (arith, marked-lookup topic url w.broker.topics x same known))
  ]

  pub resubscribe-marked :
      (client : ℕ) (ts : List (String × Unit {0})) (w : World)
      → marked topic ts || is_subscribed client topic w.calls ≡ true
      → is_subscribed client topic (resubscribe env w client ts).calls ≡ true
  unfolding resubscribe
  resubscribe-marked client [] w h = h
  resubscribe-marked client ((u, _) ∷ ts) w h =
      let call = subscribe_call (make_topic u) in
      resubscribe-marked client ts (perform env w client call).0 (
        ground
          (arith, is_subscribed-perform env w client call topic (accepted w.calls client call)))

  pub resubscribe-same :
      (client : ℕ) (ts : List (String × Unit {0})) (w : World)
      → ((resubscribe env w client ts).broker ≡ w.broker)
        × ((resubscribe env w client ts).tasks ≡ w.tasks)
  unfolding resubscribe perform
  resubscribe-same client [] w = (refl, refl)
  resubscribe-same client ((u, _) ∷ ts) w =
      resubscribe-same client ts (perform env w client (subscribe_call (make_topic u))).0

  pub connect-Goes : (w : World) (client : ℕ) → Kept w → Goes w (handle_on_connect env w client)
  unfolding handle_on_connect
  connect-Goes w client v =
      let w₁ : World = record w { broker = record w.broker { conn = some client } } in
      let (b, k) = resubscribe-same client w.broker.topics w₁ in
      record {
        kept = record {
          calm_tasks = rw k v.calm_tasks;
          live = λ client' m h.
              let m' : marked topic w.broker.topics ≡ true =
                sym (ap (λ x. marked topic x.topics) b) ∙ m in
              let conn : some client ≡ some client' = sym (ap (λ x. x.conn) b) ∙ h in
              let same : client ≡ client' = cc conn in
              rw (← same) (resubscribe-marked client w.broker.topics w₁ (rw m' refl));
        };
        covers = λ h. rw (b, k) h;
      }

  pub run_task-Goes :
      (w w' : World) (u : String) (rest : List Task)
      → calm rest ≡ true
      → run_task env (record w { tasks = rest }) (subscribing u) ≡ done w'
      → (waits topic w.tasks ≡ true → (make_topic u == topic) || waits topic rest ≡ true)
      → Kept w
      → Goes w w'
  unfolding run_task
  run_task-Goes w w' u rest calm_rest h wait v = elim (Option-cases w.broker.conn) [
    | inl missing ↦ absurd (ground arith)
    | inr (client, e) ↦
        let w₀ : World = record w { tasks = rest } in
        let call = subscribe_call (make_topic u) in
        let ended : World = mark_topic true u (perform env w₀ client call).0 in
        let run : run_task env w₀ (subscribing u) ≡ done ended =
          unfold perform in ground (arith, accepted w.calls client call) in
        let same : ended ≡ w' = cc (run, h) in
        let sub = is_subscribed-perform env w₀ client call topic (accepted w.calls client call) in
        rw (← same) (record {
          kept = record {
            calm_tasks = calm_rest;
            live = λ client' m h'.
                let conn : some client ≡ some client' = sym e ∙ h' in
                let this : client ≡ client' = cc conn in
                rw (← this)
                  (ground (arith, sub, marked-insert topic u w.broker.topics, v.live client, e, m));
          };
          covers = λ cov. ground (arith, wait, marked-insert topic u w.broker.topics, cov);
        })
  ]

  pub run_picked-Goes :
      (w w' : World) (k : ℕ) (joined : List Bool)
      → run_picked env w k joined ≡ done w'
      → Kept w
      → Goes w w'
  unfolding run_picked
  run_picked-Goes w w' k joined h v = elim (Option-cases (pick k w.tasks)) [
    | inl nothing ↦
        let run : run_picked env w k joined ≡ done w = rw (run_picked, nothing) refl in
        let same : w ≡ w' = cc (run, h) in rw (← same) (record { kept = v; covers = λ cov. cov })
    | inr ((t, rest), picked) ↦
        let (u, is_u, calm_rest, ws) = pick-calm k w.tasks rest t v.calm_tasks picked in
        let left = drop_joined (subscribing u) joined rest in
        let runs : run_task env (record w { tasks = left }) (subscribing u) ≡ done w' =
          rw (run_picked, picked, is_u) at h in
        run_task-Goes w w' u left (calm-drop_joined u joined rest calm_rest) runs
          (λ wait. elim (Bool-cases (make_topic u == topic)) [
            | inl same ↦ rw same refl
            | inr other ↦
                rw (other, waits-drop_joined topic u joined rest other)
                  (ground (arith, ws topic, other, wait))
          ])
          v
  ]

  pub perform-Goes :
      (w : World) (client : ℕ) (t : String) (r : Bool) (blob : List ℕ)
      → w.broker.conn ≡ some client
      → Kept w
      → Goes w (perform env w client (publish_call t r blob)).0
  perform-Goes w client t r blob e v =
      let call = publish_call t r blob in
      let sub = is_subscribed-perform env w client call topic (accepted w.calls client call) in
      record {
        kept = record {
          calm_tasks = unfold perform in v.calm_tasks;
          live = λ client' m h.
              let conn : some client ≡ some client' = sym e ∙ (unfold perform in h) in
              let this : client ≡ client' = cc conn in
              rw (← this) (sub ∙ v.live client (unfold perform in m) e);
        };
        covers = λ cov. unfold perform in cov;
      }

  pub publish-Goes :
      (w : World) (evt : Event) (r : World × Option PublishError)
      → publish env w evt ≡ done r
      → Kept w
      → Goes w r.0
  unfolding publish
  publish-Goes w evt r h v = elim (Option-cases (env.marshal evt)) [
    | inl unwritten ↦
        let p : World × Option PublishError = (w, some marshal_failed) in
        stays p (rw (publish, unwritten) refl) refl
    | inr (blob, written) ↦ elim (Option-cases w.broker.conn) [
      | inl offline ↦
          let p : World × Option PublishError = (w, some not_connected) in
          stays p (ground (arith, written, offline)) refl
      | inr (client, e) ↦ elim (Option-cases evt.event) [
        | inl missing ↦ absurd (ground arith)
        | inr (any, has) ↦
            let call = publish_call (make_topic any.type_url) evt.retained blob in
            let q = perform env w client call in
            let p : World × Option PublishError =
              (q.0, if q.1 then none else some publish_failed) in
            let run : publish env w evt ≡ done p = ground (arith, written, e, has) in
            let same : p ≡ r = cc (run, h) in
            rw (← ap (λ x. x.0) same)
              (perform-Goes w client (make_topic any.type_url) evt.retained blob e v)
      ]
    ]
  ]
    where
      stays : (p : World × Option PublishError) → publish env w evt ≡ done p → p.0 ≡ w → Goes w r.0
      stays p run left =
          let same : p ≡ r = cc (run, h) in
          rw (← ap (λ x. x.0) same, left) (record { kept = v; covers = λ cov. cov })
