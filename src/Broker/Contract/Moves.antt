-- ===== src/Broker/Contract/Moves.antt =====
-- Each operation of the broker keeps its part of the contract.
use events_service.Base.{
  ℕ, zero, suc, ◌≤◌, List, [], ◌∷◌, ◌++◌, String, Bool, true, Option, none, some, done, >>=-eq-done,
  ◌≡◌, refl, sym, ◌∙◌, arith, ◌⊎◌, inl, inr, ◌==◌, nat_eq, string_eq, eq_iff, nat_eqb_iff,
  Bool-cases, lookup, lookup-insert, contains, count, replicate, if◌then◌else◌,
}
use mathlib.Core.List.{append-nil}
use events_service.Chan.{Chans, history, update, send}
use events_service.Chan.Laws.{history-send, history-taken}
use events_service.Broker.{
  World, Env, Event, AnyMessage, receivers_of, subscribe, send_retained, subscribed,
}
use events_service.Broker.Contract.{Same, Joined, Left, Spread, list_of}
use events_service.Broker.Contract.Views.{
  view, contains-snoc, contains-without, contains-absent, is_sole-last, is_sole-other,
  is_sole-absent,
}
use events_service.Broker.Registration.{receivers_of-subscribe}
use events_service.Base.{without}
use events_service.Broker.Delivery.{dispatch_key, handle_message_lem}
use events_service.Broker.Dispatch.{Message, mark_retained, store_retained, handle_message}
use events_service.Broker.Dispatch.Laws.{fan_out_open}
use events_service.Broker.Removal.{unsubscribe_all}
use events_service.Broker.Removal.Laws.{sweep_key-without}
use events_service.Broker.Removal.Registered.{
  receivers_of-unsubscribe_all, unsubscribe_all-cleanup, is_sole,
}
use events_service.Broker.System.{read}
use events_service.Broker.System.Safety.{Inv, closed_off}

sent-update :
    (cs : Chans Event) (c d : ℕ) (msg : Event) (drains : Bool) (cs' : Chans Event)
    → send_retained (some msg) cs c drains ≡ done cs'
    → history (cs' d) ≡ history (cs d) ++ (if c == d then msg ∷ [] else [])
unfolding send_retained
sent-update cs c d msg drains cs' h =
    let (ch, goes, ends) = >>=-eq-done (send (cs c) msg drains) _ h in
    let same : update cs c ch ≡ cs' = cc ends in
    rw (← same) (elim (Bool-cases (c == d)) [
      | inl hit ↦ rw (hit, ← (nat_eqb_iff c d).0 hit) (history-send (cs c) ch msg drains goes)
      | inr miss ↦ rw miss (sym (append-nil (history (cs d))))
    ])

sent-retained :
    (o : Option Event) (cs : Chans Event) (c d : ℕ) (drains : Bool) (cs' : Chans Event)
    → send_retained o cs c drains ≡ done cs'
    → history (cs' d) ≡ history (cs d) ++ (if c == d then list_of o else [])
sent-retained none cs c d drains cs' h =
    let same : cs ≡ cs' = unfold send_retained in cc h in
    rw (← same) (elim (Bool-cases (c == d)) [
      | inl hit ↦ rw hit (sym (append-nil (history (cs d))))
      | inr miss ↦ rw miss (sym (append-nil (history (cs d))))
    ])
sent-retained (some msg) cs c d drains cs' h = sent-update cs c d msg drains cs' h

subscribe-sent :
    (w w' : World) (url : String) (c d : ℕ) (drains : Bool)
    → subscribe w url c drains ≡ done w'
    → history (w'.chans d)
      ≡ history (w.chans d) ++ (if c == d then list_of (lookup url w.broker.retained_msgs) else [])
unfolding subscribe
subscribe-sent w w' url c d drains h =
    let kept = lookup url w.broker.retained_msgs in
    let (cs, goes, ends) =
      >>=-eq-done (send_retained kept w.chans c drains)
        (λ (cs₁ : Chans Event). done (subscribed w url c cs₁)) h in
    let same : subscribed w url c cs ≡ w' = cc ends in
    rw (← same) (sent-retained kept w.chans c d drains cs goes)

subscribe-retained :
    (w w' : World) (url : String) (c : ℕ) (drains : Bool)
    → subscribe w url c drains ≡ done w'
    → w'.broker.retained_msgs ≡ w.broker.retained_msgs
unfolding subscribe
subscribe-retained w w' url c drains h = ground arith

pub subscribe-Joined :
    (w w' : World) (url : String) (c : ℕ) (drains : Bool)
    → subscribe w url c drains ≡ done w'
    → Joined url c (view w) (view w')
subscribe-Joined w w' url c drains h = record {
  interested_joined = λ u d. ground (
    arith,
    receivers_of-subscribe w w' url u c drains h,
    contains-snoc d c (receivers_of w.broker url),
    eq_iff url u,
  );
  retained_kept = λ u. rw (subscribe-retained w w' url c drains h);
  sent_retained = λ d. subscribe-sent w w' url c d drains h;
}

receivers_of-left :
    (w : World) (c : ℕ) (url : String)
    → Inv w
    → receivers_of (unsubscribe_all w c).broker url ≡ without c (receivers_of w.broker url)
receivers_of-left w c url v =
    receivers_of-unsubscribe_all w c url
    ∙ (sweep_key-without c (receivers_of w.broker url)).1 (v.registered_once url c)

retained-left :
    (w : World) (c : ℕ) (url : String)
    → Inv w
    → lookup url (unsubscribe_all w c).broker.retained_msgs ≡ (
        if is_sole c (lookup url w.broker.receivers)
        then none
        else lookup url w.broker.retained_msgs)
retained-left w c url v = (unsubscribe_all-cleanup w c url v.keys_unique).1

sent-closed_off : (w : World) (c d : ℕ) → history ((closed_off w c).chans d) ≡ history (w.chans d)
sent-closed_off w c d = elim (Bool-cases (c == d)) [
  | inl hit ↦ rw (hit, (nat_eqb_iff c d).0 hit)
  | inr miss ↦ rw miss
]

pub unsubscribe_all-Left :
    (w : World) (c : ℕ) → Inv w → Left c (view w) (view (unsubscribe_all w c))
unsubscribe_all-Left w c v = record {
  interested_left =
      λ u d. rw (receivers_of-left w c u v) (contains-without c d (receivers_of w.broker u));
  dropped_with_last = λ u is only.
      let sole = is_sole-last c (lookup u w.broker.receivers) (v.registered_once u c) is only in
      rw (retained-left w c u v, sole);
  kept_for_others = λ u d is other.
      rw (retained-left w c u v, is_sole-other c d (lookup u w.broker.receivers) is other);
  kept_by_strangers =
      λ u absent. rw (retained-left w c u v, is_sole-absent c (lookup u w.broker.receivers) absent);
  sent_kept = λ d. unfold unsubscribe_all in refl;
}

pub closed_off-Same : (w : World) (c : ℕ) → Same (view w) (view (closed_off w c))
closed_off-Same w c = record {
  interested_same = λ u d. refl;
  retained_same = λ u. refl;
  sent_same = λ d. sent-closed_off w c d;
}

-- At most one copy is none or one.
at_most_one :
    (c n : ℕ) (rs : List ℕ) (e : Event) (before after : List Event)
    → count c rs ≤ 1
    → n ≤ count c rs
    → after ≡ before ++ replicate n e
    → (after ≡ before) ⊎ ((contains c rs ≡ true) × (after ≡ before ++ e ∷ []))
at_most_one c zero rs e before after once le h = inl (h ∙ append-nil before)
at_most_one c (suc zero) rs e before after once le h = elim (Bool-cases (contains c rs)) [
  | inl there ↦ inr (there, h)
  | inr missing ↦ absurd (omega (arith, contains-absent c rs missing))
]
at_most_one c (suc (suc n)) rs e before after once le h = absurd (omega arith)

pub receive-Spread :
    (env : Env) (w w' : World) (m : Message) (ds : List Bool) (pb : Event) (any : AnyMessage)
    → ((e : Event) → env.clone e ≡ e)
    → env.unmarshal m.payload ≡ some pb
    → pb.event ≡ some any
    → Inv w
    → handle_message env w m ds ≡ done w'
    → Spread (dispatch_key any) m.retained (mark_retained m.retained pb) (view w) (view w')
receive-Spread env w w' m ds pb any clones decodes has v h =
    let key = dispatch_key any in
    let pb' = mark_retained m.retained pb in
    let rs = receivers_of w.broker key in
    let (cs, e, grown, _) = fan_out_open env pb' (clones _) rs ds w.chans (v.registered_open key) in
    let run = handle_message_lem env w m ds pb any decodes has clones cs e in
    let w₁ : World = record w { broker = store_retained m.retained key pb' w.broker; chans = cs } in
    let same : w₁ ≡ w' = cc (run, h) in
    rw (← same) (record {
      interested_kept = λ u d. ground arith;
      retained_latest = λ u. ground (arith, lookup-insert key u pb' w.broker.retained_msgs);
      sent_once = λ d.
          let (n, le, grows) = grown d in
          at_most_one d n rs pb' (history (w.chans d)) (history (cs d)) (v.registered_once key d) le
            grows;
    })

pub read-Same : (w : World) (c : ℕ) → Same (view w) (view (read w c))
unfolding read
read-Same w c = record {
  interested_same = λ u d. refl;
  retained_same = λ u. refl;
  sent_same = λ d. elim (Bool-cases (c == d)) [
    | inl hit ↦ rw (hit, ← (nat_eqb_iff c d).0 hit) (history-taken (w.chans c))
    | inr miss ↦ rw miss
  ];
}
