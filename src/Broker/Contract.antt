-- ===== src/Broker/Contract.antt =====
-- internal/broker: what the broker promises its subscribers, without receivers in slices, buffers,
-- topics, goroutines or connections.
pub mod Views
pub mod Moves
pub mod Room
pub mod Lossless
pub mod Subscriber
pub mod Subscriptions
pub mod Steps
use events_service.Base.{
  ℕ, List, [], ◌∷◌, ◌++◌, String, Bool, true, false, not, ◌&&◌, ◌||◌, Option, none, some, ◌≡◌, ◌≢◌,
  ◌⊎◌, ◌==◌, if◌then◌else◌, nat_eq, string_eq,
}
use events_service.Broker.{Env, Event}
use events_service.Broker.Delivery.{dispatch_key}
use events_service.Broker.Dispatch.{Message, mark_retained}
use events_service.Broker.System.{
  Action, subscribes, unsubscribes, closes, receives, connects, runs, publishes, reads,
}

-- Who is interested in which type URL, which event is retained for it, and what each subscriber
-- was sent.
pub record Board : Type 0 where
  pub interested : String → ℕ → Bool
  pub retained : String → Option Event
  pub sent : ℕ → List Event

abbrev pub list_of : Option Event → List Event
list_of none = []
list_of (some e) = e ∷ []

pub record Same (b b' : Board) : Type 0 where
  pub interested_same : (url : String) (c : ℕ) → b'.interested url c ≡ b.interested url c
  pub retained_same : (url : String) → b'.retained url ≡ b.retained url
  pub sent_same : (c : ℕ) → b'.sent c ≡ b.sent c

-- A new subscriber is sent the retained event, and nobody else anything.
pub record Joined (url : String) (c : ℕ) (b b' : Board) : Type 0 where
  pub interested_joined :
      (u : String) (d : ℕ) → b'.interested u d ≡ (b.interested u d || (url == u && c == d))
  pub retained_kept : (u : String) → b'.retained u ≡ b.retained u
  pub sent_retained :
      (d : ℕ) → b'.sent d ≡ b.sent d ++ (if c == d then list_of (b.retained url) else [])

-- A subscriber that leaves is no longer interested in anything; what was retained for a type URL
-- goes with the last one that is interested in it.
pub record Left (c : ℕ) (b b' : Board) : Type 0 where
  pub interested_left :
      (u : String) (d : ℕ) → b'.interested u d ≡ (b.interested u d && not (c == d))
  pub dropped_with_last :
      (u : String)
      → b.interested u c ≡ true
      → ((d : ℕ) → b.interested u d ≡ true → d ≡ c)
      → b'.retained u ≡ none
  pub kept_for_others :
      (u : String) (d : ℕ) → b.interested u d ≡ true → d ≢ c → b'.retained u ≡ b.retained u
  pub kept_by_strangers : (u : String) → b.interested u c ≡ false → b'.retained u ≡ b.retained u
  pub sent_kept : (d : ℕ) → b'.sent d ≡ b.sent d

-- An event reaches each subscriber that is interested in its type at most once, and no other.
pub record Spread (key : String) (keeps : Bool) (e : Event) (b b' : Board) : Type 0 where
  pub interested_kept : (u : String) (d : ℕ) → b'.interested u d ≡ b.interested u d
  pub retained_latest :
      (u : String) → b'.retained u ≡ (if keeps && key == u then some e else b.retained u)
  pub sent_once :
      (d : ℕ)
      → (b'.sent d ≡ b.sent d) ⊎ ((b.interested key d ≡ true) × (b'.sent d ≡ b.sent d ++ e ∷ []))

-- What a decoded message may change.
abbrev pub Heard : Bool → Option Event → Board → Board → Type 0
Heard r none b b' = Same b b'
Heard r (some pb) b b' = elim pb.event [
  | none ↦ ⊥
  | some any ↦ Spread (dispatch_key any) r (mark_retained r pb) b b'
]

-- What an action may change.
abbrev pub Change : Env → Action → Board → Board → Type 0
Change env (subscribes url c drains) b b' = Joined url c b b'
Change env (unsubscribes c) b b' = Left c b b'
Change env (closes c) b b' = Same b b'
Change env (receives m ds) b b' = Heard m.retained (env.unmarshal m.payload) b b'
Change env (connects client) b b' = Same b b'
Change env (runs k joined) b b' = Same b b'
Change env (publishes evt) b b' = Same b b'
Change env (reads c) b b' = Same b b'

-- What a sequence of actions may change.
unfoldable pub Changes : Env → List Action → Board → Board → Type 0
Changes env [] b b' = Same b b'
Changes env (a ∷ rest) b b' = (b₁ : Board) × Change env a b b₁ × Changes env rest b₁ b'

-- A message that decodes reaches everybody who is interested in its type.
abbrev pub ReachesAll : Bool → Option Event → Board → Board → Type 0
ReachesAll r none b b' = Unit
ReachesAll r (some pb) b b' = elim pb.event [
  | none ↦ ⊥
  | some any ↦
      (d : ℕ)
      → b'.sent d
        ≡ b.sent d ++ (if b.interested (dispatch_key any) d then mark_retained r pb ∷ [] else [])
]

abbrev pub Complete : Env → Action → Board → Board → Type 0
Complete env (receives m ds) b b' = ReachesAll m.retained (env.unmarshal m.payload) b b'
Complete env (subscribes url c drains) b b' = Unit
Complete env (unsubscribes c) b b' = Unit
Complete env (closes c) b b' = Unit
Complete env (connects client) b b' = Unit
Complete env (runs k joined) b b' = Unit
Complete env (publishes evt) b b' = Unit
Complete env (reads c) b b' = Unit

-- What a sequence of actions does if nothing is dropped.
unfoldable pub Exactly : Env → List Action → Board → Board → Type 0
Exactly env [] b b' = Same b b'
Exactly env (a ∷ rest) b b' =
    (b₁ : Board) × (Change env a b b₁ × Complete env a b b₁) × Exactly env rest b₁ b'

-- Nobody is interested in anything.
abbrev pub quiet : (ℕ → List Event) → Board
quiet sent = record { interested = λ u c. false; retained = λ u. none; sent = sent }
