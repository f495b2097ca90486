-- ===== src/Broker/System/Idle/Tasks.antt =====
-- internal/broker/broker.go: the goroutines that have not run, and the topics that are marked.
use events_service.Base.{
  ℕ, zero, suc, List, [], ◌∷◌, ◌++◌, Bool, true, false, ◌||◌, String, some, ◌≡◌, refl, sym, ◌∙◌, ap,
  arith, inl, inr, Option-cases, ◌==◌, string_eq, nat_eq, eq_iff, lookup, insert,
}
use events_service.Broker.{Task, subscribing, unsubscribing, make_topic}
use events_service.Broker.Dispatch.{later_drains}
use events_service.Broker.System.{pick, drop_joined}

module _ (topic : String) where
  -- Whether a goroutine that subscribes to the topic has not run yet.
  abbrev pub waits : List Task → Bool
  waits [] = false
  waits (subscribing u ∷ ts) = make_topic u == topic || waits ts
  waits (unsubscribing us ∷ ts) = waits ts

  -- Whether a type URL of the topic is among the broker's topics.
  abbrev pub marked : List (String × Unit {0}) → Bool
  marked [] = false
  marked ((u, _) ∷ m) = make_topic u == topic || marked m

  pub marked-insert :
      (u : String) (m : List (String × Unit {0}))
      → marked (insert u tt m) ≡ make_topic u == topic || marked m
  unfolding insert
  marked-insert u [] = refl
  marked-insert u ((v, _) ∷ m) = ground (arith, eq_iff v u, marked-insert u m)

  pub marked-lookup :
      (u : String) (m : List (String × Unit {0})) (x : Unit {0})
      → make_topic u ≡ topic
      → lookup u m ≡ some x
      → marked m ≡ true
  unfolding lookup
  marked-lookup u [] x same h = cc
  marked-lookup u ((v, _) ∷ m) x same h =
      ground (arith, eq_iff v u, eq_iff (make_topic v) topic, same, marked-lookup u m x same)

  pub waits-append : (ts us : List Task) → waits (ts ++ us) ≡ waits ts || waits us
  waits-append [] us = refl
  waits-append (subscribing u ∷ ts) us = ground (arith, waits-append ts us)
  waits-append (unsubscribing u ∷ ts) us = waits-append ts us

  pub waits-drop_joined :
      (u : String) (joined : List Bool) (ts : List Task)
      → make_topic u == topic ≡ false
      → waits (drop_joined (subscribing u) joined ts) ≡ waits ts
  unfolding drop_joined
  waits-drop_joined u joined [] other = refl
  waits-drop_joined u joined (subscribing v ∷ ts) other = ground (
    arith,
    waits-drop_joined u (later_drains joined) ts other,
    eq_iff (make_topic u) (make_topic v),
  )
  waits-drop_joined u joined (unsubscribing v ∷ ts) other =
      ground (arith, waits-drop_joined u (later_drains joined) ts other)

-- No goroutine is to leave a topic.
abbrev pub calm : List Task → Bool
calm [] = true
calm (subscribing u ∷ ts) = calm ts
calm (unsubscribing us ∷ ts) = false

pub calm-append :
    (ts : List Task) (u : String) → calm ts ≡ true → calm (ts ++ subscribing u ∷ []) ≡ true
calm-append [] u h = refl
calm-append (subscribing v ∷ ts) u h = calm-append ts u h
calm-append (unsubscribing v ∷ ts) u h = h

pub calm-drop_joined :
    (u : String) (joined : List Bool) (ts : List Task)
    → calm ts ≡ true
    → calm (drop_joined (subscribing u) joined ts) ≡ true
unfolding drop_joined
calm-drop_joined u joined [] h = refl
calm-drop_joined u joined (subscribing v ∷ ts) h =
    ground (arith, calm-drop_joined u (later_drains joined) ts h)
calm-drop_joined u joined (unsubscribing v ∷ ts) h = ground arith

-- What pick takes out of a calm list.
pub pick-calm :
    (k : ℕ) (ts rest : List Task) (t : Task)
    → calm ts ≡ true
    → pick k ts ≡ some (t, rest)
    → (u : String) × (t ≡ subscribing u)
      × (calm rest ≡ true)
      × ((topic : String) → waits topic ts ≡ make_topic u == topic || waits topic rest)
unfolding pick
pick-calm k [] rest t h e = cc
pick-calm zero (subscribing u ∷ ts) rest t h e =
    let p : Task × List Task = (subscribing u, ts) in
    let same : p ≡ (t, rest) = cc e in
    let after : ts ≡ rest = ap (λ r. r.1) same in
    (u, sym (ap (λ r. r.0) same), rw (← after) h, λ topic. rw (← after) refl)
pick-calm k (unsubscribing us ∷ ts) rest t h e = cc
pick-calm (suc k) (subscribing u ∷ ts) rest t h e = elim (Option-cases (pick k ts)) [
  | inl nothing ↦ absurd (ground arith)
  | inr ((x, more), picked) ↦
      let (v, is_v, calm_more, ws) = pick-calm k ts more x h picked in
      let p : Task × List Task = (x, subscribing u ∷ more) in
      let run : pick (suc k) (subscribing u ∷ ts) ≡ some p = rw (pick, picked) refl in
      let same : p ≡ (t, rest) = cc (run, e) in
      let after : subscribing u ∷ more ≡ rest = ap (λ r. r.1) same in
      (
        v,
        sym (ap (λ r. r.0) same) ∙ is_v,
        rw (← after) calm_more,
        λ topic. rw (← after) (ground (arith, ws topic)),
      )
]
