-- ===== src/Core/Schedules.antt =====
-- internal/automation/core.go, schedule and clearSchedule, over any scheduler that keeps its entries
-- apart.
use Prim.Native.String.{◌++◌ as append_text}
use events_service.Base.{ℕ, ◌++◌, String, none, some, ◌≡◌, ◌==◌, nat_eq, if◌then◌else◌}
use events_service.Core.{Core, Entry, Scheduler}

-- What the package cron documents: a new entry is filed under its id, which was free, and Remove
-- takes away that entry; the other entries stay.
pub record KeepsEntries {S : Type 0} (sch : Scheduler S) : Type 0 where
  pub entry-add_func :
      (s s' : S) (spec : String) (e : Entry) (id j : ℕ)
      → sch.add_func s spec e ≡ some (s', id)
      → (sch.entry s id ≡ none) × (sch.entry s' j ≡ (if id == j then some e else sch.entry s j))
  pub entry-remove :
      (s : S) (id j : ℕ) → sch.entry (sch.remove s id) j ≡ (if id == j then none else sch.entry s j)
