-- ===== src/Service/Streams.antt =====
-- SubscribeOnce: the made-up stream of its type URLs, and the send loop.
use mathlib.Core.List.{append_assoc, append-nil}
use events_service.Base.{
  ℕ, zero, suc, ◌+◌, ◌<◌, ◌≤◌, List, [], ◌∷◌, ◌++◌, Bool, false, String, some, Outcome, done, ◌>>=◌,
  length, length-append, ◌≡◌, refl, sym, ◌∙◌, ap, arith, Bool-cases, fun_ext, >>=_assoc, inl, inr,
  ◌⊎◌, ◌==◌, nat_eq, string_eq, eq_iff, nat_eqb_iff, count, count-append, if◌then◌else◌, true,
}
use events_service.Chan.{has_room}
use events_service.Broker.Registration.{
  receivers_of-subscribe, subscribe_open, subscribe_blocked, subscribe-closed,
}
use events_service.Broker.Contract.Room.{subscribe-Fills}
use events_service.Broker.{World, Event, subscribe, receivers_of}
use events_service.Broker.Dispatch.{next_drain, later_drains}
use events_service.Service.{
  FakeStream, message, eof, subscribe_kind, fake_receive, url_at, on_message, receive_loop,
  send_loop, subscribe_once,
}

-- The subscriptions of one channel to a list of type URLs, one after the other.
pub subscribe_each : World → ℕ → List String → List Bool → Outcome World
subscribe_each w c [] ds = done w
subscribe_each w c (u ∷ us) ds =
    subscribe w u c (next_drain ds) >>= λ w'. subscribe_each w' c us (later_drains ds)

url_at-append :
    (before : List String) (u : String) (after : List String)
    → url_at (before ++ u ∷ after) (length before) ≡ u
url_at-append [] u after = refl
url_at-append (x ∷ before) u after = url_at-append before u after

abbrev at : List String → List String → FakeStream
at before after = record { type_urls = before ++ after; iter = length before }

fake_receive-next :
    (before : List String) (u : String) (after : List String)
    → fake_receive (at before (u ∷ after)) ≡ (
      message (subscribe_kind u),
      record { type_urls = before ++ u ∷ after; iter = length before + 1 },
    )
unfolding fake_receive
fake_receive-next before u after =
    ground (arith, length-append before (u ∷ after), url_at-append before u after)

fake_receive-end :
    (urls : List String) (n : ℕ)
    → length urls ≤ n
    → fake_receive (record { type_urls = urls; iter = n })
      ≡ (eof, record { type_urls = urls; iter = n })
unfolding fake_receive
fake_receive-end urls n h = ground arith

at-next :
    (before : List String) (u : String) (after : List String)
    → ◌≡◌ {A = FakeStream}
        (record { type_urls = before ++ u ∷ after; iter = length before + 1 })
        (at (before ++ u ∷ []) after)
at-next before u after i = record {
  type_urls = sym (append_assoc before (u ∷ []) after) i;
  iter = sym (length-append before (u ∷ [])) i;
}

loop_message :
    (s s' : FakeStream) (u : String) (fuel : ℕ) (w : World) (c : ℕ) (ds : List Bool)
    → fake_receive s ≡ (message (subscribe_kind u), s')
    → receive_loop fake_receive (suc fuel) s w c ds ≡ (
        subscribe w u c (next_drain ds) >>= λ w'.
        receive_loop fake_receive fuel s' w' c (later_drains ds))
unfolding receive_loop on_message
loop_message s s' u fuel w c ds e = simp (e, receive_loop)

loop_end :
    (s s' : FakeStream) (fuel : ℕ) (w : World) (c : ℕ) (ds : List Bool)
    → fake_receive s ≡ (eof, s')
    → receive_loop fake_receive (suc fuel) s w c ds ≡ done (some w)
unfolding receive_loop
loop_end s s' fuel w c ds e = rw (e, receive_loop)

loop_from :
    (before after : List String) (fuel : ℕ) (w : World) (c : ℕ) (ds : List Bool)
    → length after < fuel
    → receive_loop fake_receive fuel (at before after) w c ds
      ≡ (subscribe_each w c after ds >>= λ w'. done (some w'))
unfolding subscribe_each
loop_from before after zero w c ds h = elim h [ ]
loop_from before [] (suc fuel) w c ds h =
    loop_end (at before []) _ fuel w c ds
      (fake_receive-end (before ++ []) (length before) (omega (arith, length-append before [])))
loop_from before (u ∷ after) (suc fuel) w c ds h =
    loop_message (at before (u ∷ after)) _ u fuel w c ds (
      fake_receive-next before u after
      ∙ ap (λ s. (message (subscribe_kind u), s)) (at-next before u after))
    ∙ ap (λ k. subscribe w u c (next_drain ds) >>= k)
        (fun_ext
          (λ w'. loop_from (before ++ u ∷ []) after fuel w' c (later_drains ds) (omega arith)))
    ∙ sym (>>=_assoc (subscribe w u c (next_drain ds)) _ _)

loop_alone :
    (urls : List String) (fuel : ℕ) (w : World) (c : ℕ) (ds : List Bool)
    → length urls < fuel
    → receive_loop fake_receive fuel (record { type_urls = urls; iter = 0 }) w c ds
      ≡ (subscribe_each w c urls ds >>= λ w'. done (some w'))
loop_alone urls = loop_from [] urls

-- A subscription of an open channel with room ends.
subscribe-room :
    (w : World) (url : String) (c : ℕ) (drains : Bool)
    → (w.chans c).closed ≡ false
    → has_room (w.chans c) ≡ true
    → (w' : World) × (subscribe w url c drains ≡ done w')
subscribe-room w url c drains open_ room = elim (subscribe_open w url c drains open_) [
  | inl waits ↦
      let (msg, kept, full) = subscribe_blocked w url c drains waits in absurd (ground arith)
  | inr (w', ends, same) ↦ (w', ends)
]

-- Subscriptions of an open channel that has room for a message of each end, and register it once more
-- for each time that a type URL is in the list.
subscribe_each-room :
    (urls : List String) (w : World) (c : ℕ) (ds : List Bool)
    → (w.chans c).closed ≡ false
    → length (w.chans c).buffer + length urls ≤ (w.chans c).capacity
    → (w' : World) × (subscribe_each w c urls ds ≡ done w')
      × ((url : String) (d : ℕ)
          → count d (receivers_of w'.broker url)
            ≡ count d (receivers_of w.broker url) + (if c == d then count url urls else 0))
unfolding subscribe_each
subscribe_each-room [] w c ds open_ room = (w, refl, λ url d. ground arith)
subscribe_each-room (u ∷ us) w c ds open_ room =
    let (w₁, ends) = subscribe-room w u c (next_drain ds) open_ (ground arith) in
    let f = subscribe-Fills w w₁ u c (next_drain ds) ends c in
    let (w', run, each) =
      subscribe_each-room us w₁ c (later_drains ds)
        (subscribe-closed w w₁ u c c (next_drain ds) open_ ends ∙ open_)
        (omega (arith, f.filled, f.capacity_same, room)) in
    (
      w',
      rw ends run,
      λ url d. ground (
        arith,
        each url d,
        receivers_of-subscribe w w₁ u url c (next_drain ds) ends,
        count-append d (receivers_of w.broker u) (c ∷ []),
        eq_iff u url,
        nat_eqb_iff c d,
      ),
    )

-- The receive loop over the stream of a SubscribeOnce request ends after one round more than the
-- request has type URLs, if the channel is open and has room for a message of each; it has then made
-- the subscriptions of the list, one after the other, and the channel is registered under each type
-- URL once more for each time that the URL is in the request. No other registration has changed.
pub receive_loop-subscribe_each :
    (urls : List String) (fuel : ℕ) (w : World) (c : ℕ) (ds : List Bool)
    → length urls < fuel
    → (w.chans c).closed ≡ false
    → length (w.chans c).buffer + length urls ≤ (w.chans c).capacity
    → (w' : World) × (receive_loop fake_receive fuel (subscribe_once urls) w c ds ≡ done (some w'))
      × (subscribe_each w c urls ds ≡ done w')
      × ((url : String) (d : ℕ)
          → count d (receivers_of w'.broker url)
            ≡ count d (receivers_of w.broker url) + (if c == d then count url urls else 0))
receive_loop-subscribe_each urls fuel w c ds enough open_ room =
    let (w', run, each) = subscribe_each-room urls w c ds open_ room in
    (w', loop_alone urls fuel w c ds enough ∙ rw run refl, run, each)

-- What goes out to the client is what went out before, followed by a part of the channel's
-- events from the front, in order: all of them, or those before the first one that stream.Send
-- refuses.
pub send_loop-prefix :
    (accepts : List Event → Event → Bool) (sent events : List Event)
    → (out rest : List Event) × (send_loop accepts sent events ≡ sent ++ out)
      × (events ≡ out ++ rest)
      × ((rest ≡ [])
          ⊎ ((e : Event) × (later : List Event) × (rest ≡ e ∷ later)
              × (accepts (sent ++ out) e ≡ false)))
unfolding send_loop
send_loop-prefix accepts sent [] = ([], [], sym (append-nil sent), refl, inl refl)
send_loop-prefix accepts sent (e ∷ events) = elim (Bool-cases (accepts sent e)) [
  | inl good ↦
      let (out, rest, h, split, why) = send_loop-prefix accepts (sent ++ e ∷ []) events in
      (
        e ∷ out,
        rest,
        rw good (h ∙ append_assoc sent (e ∷ []) out),
        ap (◌∷◌ e) split,
        rw append_assoc at why,
      )
  | inr bad ↦ (
    [],
    e ∷ events,
    rw bad (sym (append-nil sent)),
    refl,
    inr (e, events, refl, rw append-nil bad),
  )
]
