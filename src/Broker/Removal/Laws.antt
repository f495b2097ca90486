-- ===== src/Broker/Removal/Laws.antt =====
-- When UnsubscribeAll removes a channel from a topic, and when it does not.
use events_service.Base.{
  ℕ, zero, suc, ◌-◌, ◌≤◌, List, [], ◌∷◌, length, take, count, without, nat_eq, ◌≡◌, refl, ◌↔◌,
  arith, inr, ap, without_self, length-without,
}
use events_service.Base.{◌≢◌, ◌⊎◌, length-take, take-length}
use events_service.Broker.Removal.{close_gap, sweep, sweep_key}

length-close_gap : (xs : List ℕ) → length (close_gap xs) ≡ length xs
unfolding close_gap
length-close_gap [] = refl
length-close_gap (x ∷ []) = refl
length-close_gap (x ∷ y ∷ ys) = ap suc (length-close_gap (y ∷ ys))

take-close_gap : (x : ℕ) (xs : List ℕ) → take (length xs) (close_gap (x ∷ xs)) ≡ xs
unfolding close_gap
take-close_gap x [] = refl
take-close_gap x (y ∷ ys) = ap (◌∷◌ y) (take-close_gap y ys)

count-close_gap : (a x : ℕ) (xs : List ℕ) → count a (x ∷ xs) ≡ 0 → count a (close_gap (x ∷ xs)) ≡ 0
unfolding close_gap
count-close_gap a x [] h = h
count-close_gap a x (y ∷ ys) h = ground (arith, count-close_gap a y ys)

-- Without an occurrence the loop changes nothing.
sweep_absent :
    (k n len a : ℕ) (xs : List ℕ)
    → count a xs ≡ 0
    → ((sweep k n len a xs).array ≡ xs) × ((sweep k n len a xs).len ≡ len)
unfolding sweep
sweep_absent zero n len a xs h = (refl, refl)
sweep_absent (suc k) n len a [] h = (refl, refl)
sweep_absent (suc k) n len a (x ∷ xs) h = ground (arith, sweep_absent k n len a xs)

-- Nor does it mark a topic that keeps an entry.
sweep_absent_marks :
    (k n len a : ℕ) (xs : List ℕ) → count a xs ≡ 0 → (sweep k n (suc len) a xs).marks ≡ 0
unfolding sweep
sweep_absent_marks zero n len a xs h = refl
sweep_absent_marks (suc k) n len a [] h = refl
sweep_absent_marks (suc k) n len a (x ∷ xs) h = ground (arith, sweep_absent_marks k n len a xs)

-- Past the one occurrence the loop has closed the gap.
sweep_once :
    (n a x : ℕ) (xs : List ℕ)
    → count a (x ∷ xs) ≡ 1
    → take (length xs) (sweep (suc (length xs)) (suc n) (suc n) a (x ∷ xs)).array
      ≡ without a (x ∷ xs)
unfolding sweep
sweep_once n a x [] h = ground arith
sweep_once n a x (y ∷ ys) h = ground (
  arith,
  sweep_once n a y ys,
  sweep_absent (suc (length ys)) (suc n) n a (close_gap (y ∷ ys)),
  count-close_gap a y ys,
  take-close_gap x (y ∷ ys),
  take-close_gap y ys,
  without_self a (y ∷ ys),
)

length-sweep : (k n len a : ℕ) (xs : List ℕ) → length (sweep k n len a xs).array ≡ length xs
unfolding sweep
length-sweep zero n len a xs = refl
length-sweep (suc k) n len a [] = refl
length-sweep (suc k) n len a (x ∷ []) =
    ground (arith, length-sweep k n len a [], length-sweep k n (n - 1) a [])
length-sweep (suc k) n len a (x ∷ y ∷ ys) = ground (
  arith,
  length-sweep k n len a (y ∷ ys),
  length-sweep k n (n - 1) a (close_gap (y ∷ ys)),
  length-close_gap (y ∷ ys),
)

sweep_len : (k n a : ℕ) (xs : List ℕ) → (sweep k n (n - 1) a xs).len ≡ n - 1
unfolding sweep
sweep_len zero n a xs = refl
sweep_len (suc k) n a [] = refl
sweep_len (suc k) n a (x ∷ []) = ground (arith, sweep_len k n a [])
sweep_len (suc k) n a (x ∷ y ∷ ys) =
    ground (arith, sweep_len k n a (y ∷ ys), sweep_len k n a (close_gap (y ∷ ys)))

sweep_hit :
    (n len a : ℕ) (xs : List ℕ) → 1 ≤ count a xs → (sweep (length xs) n len a xs).len ≡ n - 1
unfolding sweep
sweep_hit n len a [] h = absurd (omega arith)
sweep_hit n len a (x ∷ []) h = ground arith
sweep_hit n len a (x ∷ y ∷ ys) h =
    ground (arith, sweep_hit n len a (y ∷ ys), sweep_len (length (y ∷ ys)) n a (close_gap (y ∷ ys)))

sweep_keeps : (k n len a : ℕ) (xs : List ℕ) → (sweep k (suc (suc n)) (suc len) a xs).marks ≡ 0
unfolding sweep
sweep_keeps zero n len a xs = refl
sweep_keeps (suc k) n len a [] = refl
sweep_keeps (suc k) n len a (x ∷ []) =
    ground (arith, sweep_keeps k n len a [], sweep_keeps k n n a [])
sweep_keeps (suc k) n len a (x ∷ y ∷ ys) =
    ground (arith, sweep_keeps k n len a (y ∷ ys), sweep_keeps k n n a (close_gap (y ∷ ys)))

-- A topic is marked for cleanup exactly when the channel was its only receiver, and then once.
pub sweep_key-marks :
    (a : ℕ) (rs : List ℕ)
    → ((rs ≡ a ∷ []) × ((sweep_key a rs).1 ≡ 1)) ⊎ ((rs ≢ a ∷ []) × ((sweep_key a rs).1 ≡ 0))
unfolding sweep_key
sweep_key-marks a [] = inr (λ e. cc, refl)
sweep_key-marks a (x ∷ []) = ground arith
sweep_key-marks a (x ∷ y ∷ ys) =
    inr (λ e. cc, sweep_keeps (suc (suc (length ys))) (length ys) (suc (length ys)) a (x ∷ y ∷ ys))

length-sweep_key :
    (a : ℕ) (rs : List ℕ) → 1 ≤ count a rs → length (sweep_key a rs).0 ≡ length rs - 1
unfolding sweep_key
length-sweep_key a rs h = ground (
  arith,
  sweep_hit (length rs) (length rs) a rs,
  length-sweep (length rs) (length rs) (length rs) a rs,
  length-take (length rs - 1) (sweep (length rs) (length rs) (length rs) a rs).array,
)

pub sweep_key_absent : (a : ℕ) (rs : List ℕ) → count a rs ≡ 0 → (sweep_key a rs).0 ≡ rs
unfolding sweep_key
sweep_key_absent a rs h =
    ground (arith, sweep_absent (length rs) (length rs) (length rs) a rs, take-length rs)

pub sweep_key_once : (a : ℕ) (rs : List ℕ) → count a rs ≡ 1 → (sweep_key a rs).0 ≡ without a rs
unfolding sweep_key
sweep_key_once a [] h = absurd (omega arith)
sweep_key_once a (x ∷ xs) h =
    ground (
      arith,
      sweep_hit (suc (length xs)) (suc (length xs)) a (x ∷ xs),
      sweep_once (length xs) a x xs,
    )

-- The inner loop of UnsubscribeAll takes a channel out of a topic's receivers, and nothing else,
-- exactly when the channel stands among them at most once.
pub sweep_key-without :
    (a : ℕ) (rs : List ℕ) → ((sweep_key a rs).0 ≡ without a rs) ↔ (count a rs ≤ 1)
sweep_key-without a rs = (few, exact)
  where
    few : (sweep_key a rs).0 ≡ without a rs → count a rs ≤ 1
    few e = ground (arith, ap length e, length-sweep_key a rs, length-without a rs)

    exact : count a rs ≤ 1 → (sweep_key a rs).0 ≡ without a rs
    exact h = ground (arith, sweep_key_once a rs, sweep_key_absent a rs, without_self a rs)
