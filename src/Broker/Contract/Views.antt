-- ===== src/Broker/Contract/Views.antt =====
-- The broker's state as its contract sees it.
use events_service.Base.{
  ℕ, ◌≤◌, List, [], ◌∷◌, ◌++◌, true, false, not, ◌&&◌, ◌||◌, Option, none, some, ◌≡◌, ◌≢◌, refl,
  arith, ◌==◌, nat_eq, lookup, contains, count, without,
}
use events_service.Chan.{history}
use events_service.Broker.{World, receivers_of}
use events_service.Broker.Contract.{Board, Same}
use events_service.Broker.Removal.Registered.{is_sole}
use events_service.Text.{option_or}

abbrev pub view : World → Board
view w = record {
  interested = λ url c. contains c (receivers_of w.broker url);
  retained = λ url. lookup url w.broker.retained_msgs;
  sent = λ c. history (w.chans c);
}

-- A step that touches neither the receivers, nor what is retained, nor the channels.
pub view-Same :
    (w w' : World)
    → w'.broker.receivers ≡ w.broker.receivers
    → w'.broker.retained_msgs ≡ w.broker.retained_msgs
    → w'.chans ≡ w.chans
    → Same (view w) (view w')
view-Same w w' r k s = record {
  interested_same = λ url c. rw r;
  retained_same = λ url. rw k;
  sent_same = λ c. rw s;
}

pub contains-count : (c : ℕ) (xs : List ℕ) → contains c xs ≡ true → 1 ≤ count c xs
contains-count c [] h = cc
contains-count c (x ∷ xs) h = ground (arith, contains-count c xs)

pub contains-absent : (c : ℕ) (xs : List ℕ) → contains c xs ≡ false → count c xs ≡ 0
contains-absent c [] h = refl
contains-absent c (x ∷ xs) h = ground (arith, contains-absent c xs)

pub contains-snoc : (d c : ℕ) (xs : List ℕ) → contains d (xs ++ c ∷ []) ≡ (contains d xs || c == d)
contains-snoc d c [] = ground arith
contains-snoc d c (x ∷ xs) = ground (arith, contains-snoc d c xs)

pub contains-without :
    (c d : ℕ) (xs : List ℕ) → contains d (without c xs) ≡ (contains d xs && not (c == d))
contains-without c d [] = refl
contains-without c d (x ∷ xs) = ground (arith, contains-without c d xs)

-- A channel is the one receiver if it is registered once and no other channel is.
pub is_sole-last :
    (c : ℕ) (o : Option (List ℕ))
    → count c (option_or o []) ≤ 1
    → contains c (option_or o []) ≡ true
    → ((d : ℕ) → contains d (option_or o []) ≡ true → d ≡ c)
    → is_sole c o ≡ true
is_sole-last c none once h only = cc
is_sole-last c (some []) once h only = cc
is_sole-last c (some (x ∷ [])) once h only = ground arith
is_sole-last c (some (x ∷ y ∷ rs)) once h only = absurd (ground (arith, only x, only y))

pub is_sole-other :
    (c d : ℕ) (o : Option (List ℕ))
    → contains d (option_or o []) ≡ true
    → d ≢ c
    → is_sole c o ≡ false
is_sole-other c d none h other = refl
is_sole-other c d (some []) h other = refl
is_sole-other c d (some (x ∷ [])) h other = ground arith
is_sole-other c d (some (x ∷ y ∷ rs)) h other = refl

pub is_sole-absent :
    (c : ℕ) (o : Option (List ℕ)) → contains c (option_or o []) ≡ false → is_sole c o ≡ false
is_sole-absent c none h = refl
is_sole-absent c (some []) h = refl
is_sole-absent c (some (x ∷ [])) h = ground arith
is_sole-absent c (some (x ∷ y ∷ rs)) h = refl
