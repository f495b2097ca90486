-- ===== src/Broker/Removal/Registered.antt =====
-- UnsubscribeAll seen through the receivers of each topic.
use events_service.Base.{Unique, ◌∙◌, ap}
use events_service.Base.{
  ℕ, List, [], ◌∷◌, ◌++◌, String, Option, none, some, ◌≡◌, refl, arith, count, without, ◌==◌,
  nat_eq, string_eq, lookup, eq_iff, if◌then◌else◌, Bool, true, false, contains, replicate, delete,
  lookup-delete, ◌↔◌, inl, inr, ◌⊎◌, zero, suc, ◌≤◌,
}
use mathlib.Core.Option
use events_service.Broker.{World, receivers_of}
use events_service.Broker.Removal.{sweep_key, sweep_all, delete_all, unsubscribe_all}
use events_service.Broker.Removal.Laws.{sweep_key-without, sweep_key-marks}

lookup-sweep_all :
    (a : ℕ) (m : List (String × List ℕ)) (url : String)
    → lookup url (sweep_all a m).0 ≡ Option.map (λ rs. (sweep_key a rs).0) (lookup url m)
unfolding lookup sweep_all
lookup-sweep_all a [] url = refl
lookup-sweep_all a ((key, rs) ∷ m) url = ground (arith, lookup-sweep_all a m url)

-- Each topic's receivers are swept on their own.
pub receivers_of-unsubscribe_all :
    (w : World) (a : ℕ) (url : String)
    → receivers_of (unsubscribe_all w a).broker url ≡ (sweep_key a (receivers_of w.broker url)).0
unfolding unsubscribe_all sweep_key
receivers_of-unsubscribe_all w a url = ground (arith, lookup-sweep_all a w.broker.receivers url)

-- UnsubscribeAll takes the channel out of the receivers of a topic, and leaves the others in
-- their order, exactly when it is registered there at most once.
pub unsubscribe_all-without :
    (w : World) (a : ℕ) (url : String)
    → (receivers_of (unsubscribe_all w a).broker url ≡ without a (receivers_of w.broker url))
      ↔ (count a (receivers_of w.broker url) ≤ 1)
unsubscribe_all-without w a url =
    rw receivers_of-unsubscribe_all (sweep_key-without a (receivers_of w.broker url))

contains-replicate :
    (u key : String) (n : ℕ) (ts : List String)
    → contains u (replicate n key ++ ts) ≡ true
    → (key ≡ u) ⊎ (contains u ts ≡ true)
contains-replicate u key zero ts h = inr h
contains-replicate u key (suc n) ts h = ground (arith, eq_iff key u, contains-replicate u key n ts)

-- The topics marked for cleanup are those whose one receiver was the channel.
cleanup_sole :
    (a : ℕ) (m : List (String × List ℕ)) (url : String)
    → Unique m
    → (contains url (sweep_all a m).1 ≡ true) ↔ (lookup url m ≡ some (a ∷ []))
unfolding lookup sweep_all
cleanup_sole a [] url u = ground arith
cleanup_sole a ((key, rs) ∷ m) url u = elim (sweep_key-marks a rs) [
  | inl (sole, one) ↦ rw one (ground (arith, eq_iff key url, cleanup_sole a m url u.1))
  | inr (more, zero_marks) ↦
      rw zero_marks (ground (arith, eq_iff key url, cleanup_sole a m url u.1))
]

lookup-delete_all {ℓ} :
    {V : Type ℓ} (ts : List String) (m : List (String × V)) (k : String)
    → lookup k (delete_all ts m) ≡ (if contains k ts then none else lookup k m)
unfolding delete_all
lookup-delete_all [] m k = refl
lookup-delete_all (t ∷ ts) m k =
    ground (arith, lookup-delete_all ts (delete t m) k, lookup-delete t k m)

-- Whether a channel is a topic's one receiver.
abbrev pub is_sole : ℕ → Option (List ℕ) → Bool
is_sole a none = false
is_sole a (some []) = false
is_sole a (some (x ∷ [])) = x == a
is_sole a (some (x ∷ y ∷ rs)) = false

is_sole_iff : (a : ℕ) (o : Option (List ℕ)) → (is_sole a o ≡ true) ↔ (o ≡ some (a ∷ []))
is_sole_iff a none = ground arith
is_sole_iff a (some []) = ground arith
is_sole_iff a (some (x ∷ [])) = ground arith
is_sole_iff a (some (x ∷ y ∷ rs)) = ground arith

-- When a channel leaves, each topic whose one receiver it was loses its mark in `topics` and its
-- retained message, and every other topic keeps both. (The map of receivers has one entry for
-- each key.)
pub unsubscribe_all-cleanup :
    (w : World) (a : ℕ) (url : String)
    → Unique w.broker.receivers
    → let b = w.broker in
      let b' = (unsubscribe_all w a).broker in
      let sole = is_sole a (lookup url b.receivers) in
      (lookup url b'.topics ≡ (if sole then none else lookup url b.topics))
      × (lookup url b'.retained_msgs ≡ (if sole then none else lookup url b.retained_msgs))
unfolding unsubscribe_all
unsubscribe_all-cleanup w a url u = ground (
  arith,
  cleanup_sole a w.broker.receivers url u,
  is_sole_iff a (lookup url w.broker.receivers),
  lookup-delete_all (sweep_all a w.broker.receivers).1 w.broker.topics url,
  lookup-delete_all (sweep_all a w.broker.receivers).1 w.broker.retained_msgs url,
)

pub sweep_all-Unique : (a : ℕ) (m : List (String × List ℕ)) → Unique m → Unique (sweep_all a m).0
unfolding sweep_all
sweep_all-Unique a [] u = tt
sweep_all-Unique a ((key, rs) ∷ m) u = (
  lookup-sweep_all a m key ∙ ap (Option.map (λ rs. (sweep_key a rs).0)) u.0,
  sweep_all-Unique a m u.1,
)
