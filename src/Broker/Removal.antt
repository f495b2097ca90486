-- ===== src/Broker/Removal.antt =====
-- internal/broker/broker.go, UnsubscribeAll. The inner loop ranges over the slice as it was, while
-- `append(receivers[:idx], receivers[idx+1:]...)` moves the later entries one place to the front
-- in the array that the loop goes on reading; the array's last place keeps its entry.
pub mod Laws
pub mod Registered
use events_service.Base.{
  ℕ, zero, suc, ◌-◌, List, [], ◌∷◌, ◌++◌, map, String, length, take, replicate, if◌then◌else◌, ◌==◌,
  nat_eq, delete,
}
use events_service.Broker.{Broker, World, Entry, Call, Env, Task, unsubscribing, unsubscribe_call}

-- The array from place idx on, after append(receivers[:idx], receivers[idx+1:]...).
pub close_gap : List ℕ → List ℕ
close_gap [] = []
close_gap (x ∷ []) = x ∷ []
close_gap (x ∷ y ∷ ys) = y ∷ close_gap (y ∷ ys)

-- What the inner loop leaves: the array from place idx on, len(b.receivers[key]), and how often
-- the key was marked for cleanup.
pub record Sweep : Type 0 where
  pub array : List ℕ
  pub len : ℕ
  pub marks : ℕ

abbrev mark_empty : ℕ → ℕ → ℕ
mark_empty zero n = suc n
mark_empty (suc _) n = n

keep_first : List ℕ → (List ℕ → Sweep) → Sweep
keep_first [] go = go []
keep_first (y ∷ ys) go = let r = go ys in record r { array = y ∷ r.array }

-- The inner loop over the places that are left: `n` is len(receivers), `len` is
-- len(b.receivers[key]) so far, and the list is the array from place idx on.
pub sweep : ℕ → ℕ → ℕ → ℕ → List ℕ → Sweep
unfolding keep_first close_gap
sweep zero n len msgs xs = record { array = xs; len = len; marks = 0 }
sweep (suc k) n len msgs [] = record { array = []; len = len; marks = 0 }
sweep (suc k) n len msgs (x ∷ xs) =
    let hit = x == msgs in
    let now = if hit then close_gap (x ∷ xs) else x ∷ xs in
    let len' = if hit then n - 1 else len in
    let r = keep_first now (sweep k n len' msgs) in record r { marks = mark_empty len' r.marks }

-- One key: its new slice and its marks.
unfoldable pub sweep_key : ℕ → List ℕ → List ℕ × ℕ
unfolding sweep
sweep_key msgs rs =
    let n = length rs in let r = sweep n n n msgs rs in (take r.len r.array, r.marks)

-- The outer loop: the new map, and topicCleanup.
unfoldable pub sweep_all : ℕ → List (String × List ℕ) → List (String × List ℕ) × List String
unfolding sweep_key
sweep_all msgs [] = ([], [])
sweep_all msgs ((key, rs) ∷ m) =
    let (m', cleanup) = sweep_all msgs m in
    let (rs', marks) = sweep_key msgs rs in ((key, rs') ∷ m', replicate marks key ++ cleanup)

-- delete(m, t) for each t
unfoldable pub delete_all {ℓ} : {V : Type ℓ} → List String → List (String × V) → List (String × V)
unfolding delete
delete_all [] m = m
delete_all (t ∷ ts) m = delete_all ts (delete t m)

-- The goroutine that leaves the topics is started if there is one to leave.
abbrev start_cleanup : List String → List Task → List Task
start_cleanup [] ts = ts
start_cleanup (t ∷ cleanup) ts = ts ++ unsubscribing (t ∷ cleanup) ∷ []

-- UnsubscribeAll
unfoldable pub unsubscribe_all : World → ℕ → World
unfolding sweep_all delete_all
unsubscribe_all w msgs =
    let b = w.broker in
    let (m, cleanup) = sweep_all msgs b.receivers in
    record w {
      broker = record b {
        receivers = m;
        topics = delete_all cleanup b.topics;
        retained_msgs = delete_all cleanup b.retained_msgs;
      };
      tasks = start_cleanup cleanup w.tasks;
    }
