-- ===== src/Modules/Lookup.antt =====
-- internal/automation/modules/registry.go: what require() finds after EnableModules, whatever the
-- order in which `range` visits the modules.
use events_service.Base.{
  ℕ, List, [], ◌∷◌, String, Option, none, some, ◌≡◌, ◌≢◌, refl, arith, ◌==◌, string_eq, eq_iff,
  eq_refl, Unique, lookup, if◌then◌else◌, inl, inr, Bool-cases, ap,
}
use events_service.Modules.{Module, Instance, Instantiated, failed, ignored, object}
use events_service.Modules.Instances.{instances_of, errors_of}

-- RegisterNativeModule for one instance after the other: the last one under a name stands.
unfoldable pub require_native : String → List Instance → Option ℕ
require_native k [] = none
require_native k (i ∷ is) = elim (require_native k is) [
  | some o ↦ some o
  | none ↦ if i.name == k then some i.module_object else none
]

abbrev pub object_of : Instantiated → Option ℕ
object_of (failed reason) = none
object_of ignored = none
object_of (object o) = some o

abbrev pub made_by : Option Module → Option ℕ
made_by none = none
made_by (some m) = object_of m.new_module_instance

-- Each module stands under its name.
abbrev pub Named : List (String × Module) → Type 0
Named ms = (k : String) (m : Module) → lookup k ms ≡ some m → m.name ≡ k

-- A key of the rest is not that of the first entry.
lookup-rest :
    (k j : String) (m n : Module) (ms : List (String × Module))
    → lookup k ms ≡ none
    → lookup j ms ≡ some n
    → lookup j ((k, m) ∷ ms) ≡ some n
unfolding lookup
lookup-rest k j m n ms fresh h = ground (arith, eq_iff k j)

lookup-first :
    (k : String) (m : Module) (ms : List (String × Module)) → lookup k ((k, m) ∷ ms) ≡ some m
unfolding lookup
lookup-first k m ms = ground (arith, eq_refl k)

Named-rest :
    (k : String) (m : Module) (ms : List (String × Module))
    → lookup k ms ≡ none
    → Named ((k, m) ∷ ms)
    → Named ms
Named-rest k m ms fresh named j n h = named j n (lookup-rest k j m n ms fresh h)

-- What the first entry adds, by what its module makes.
require-cons :
    (k j : String) (m : Module) (ms : List (String × Module)) (x : Instantiated)
    → m.new_module_instance ≡ x
    → m.name ≡ k
    → lookup k ms ≡ none
    → require_native j (instances_of ms) ≡ made_by (lookup j ms)
    → require_native j (instances_of ((k, m) ∷ ms)) ≡ made_by (lookup j ((k, m) ∷ ms))
unfolding require_native instances_of lookup
require-cons k j m ms (failed reason) e n fresh ih = ground (arith, eq_iff k j)
require-cons k j m ms ignored e n fresh ih = ground (arith, eq_iff k j)
require-cons k j m ms (object o) e n fresh ih = ground (arith, eq_iff k j)

pub require-instances_of :
    (ms : List (String × Module)) (j : String)
    → Unique ms
    → Named ms
    → require_native j (instances_of ms) ≡ made_by (lookup j ms)
unfolding require_native instances_of lookup
require-instances_of [] j u named = refl
require-instances_of ((k, m) ∷ ms) j u named =
    require-cons k j m ms m.new_module_instance refl (named k m (lookup-first k m ms)) u.0
      (require-instances_of ms j u.1 (Named-rest k m ms u.0 named))

-- A module that failed, by its name.
abbrev pub Failing : List (String × Module) → Type 0
Failing ms =
    (k : String) × (m : Module) × (reason : String) × (lookup k ms ≡ some m)
    × (m.new_module_instance ≡ failed reason)

Failing-cons :
    (k : String) (m : Module) (ms : List (String × Module)) (x : Instantiated)
    → m.new_module_instance ≡ x
    → lookup k ms ≡ none
    → (errors_of ms ≢ [] → Failing ms)
    → errors_of ((k, m) ∷ ms) ≢ []
    → Failing ((k, m) ∷ ms)
unfolding errors_of
Failing-cons k m ms (failed reason) e fresh ih h = (k, m, reason, lookup-first k m ms, e)
Failing-cons k m ms ignored e fresh ih h =
    let (j, n, reason, found, fails) = ih (λ none_left. h (rw e none_left)) in
    (j, n, reason, lookup-rest k j m n ms fresh found, fails)
Failing-cons k m ms (object o) e fresh ih h =
    let (j, n, reason, found, fails) = ih (λ none_left. h (rw e none_left)) in
    (j, n, reason, lookup-rest k j m n ms fresh found, fails)

-- Errors come from modules that failed, and each such module gives one.
pub errors_of-Failing : (ms : List (String × Module)) → Unique ms → errors_of ms ≢ [] → Failing ms
unfolding errors_of
errors_of-Failing [] u h = absurd (h refl)
errors_of-Failing ((k, m) ∷ ms) u h =
    Failing-cons k m ms m.new_module_instance refl u.0 (errors_of-Failing ms u.1) h

pub errors_of-lookup :
    (ms : List (String × Module)) (k reason : String) (m : Module)
    → lookup k ms ≡ some m
    → m.new_module_instance ≡ failed reason
    → errors_of ms ≢ []
unfolding errors_of lookup
errors_of-lookup [] k reason m found fails = λ e. ground arith
errors_of-lookup ((j, n) ∷ ms) k reason m found fails = elim (Bool-cases (j == k)) [
  | inl here ↦
      let same : n ≡ m = ground arith in λ e. ground (arith, ap (λ x. x.new_module_instance) same)
  | inr there ↦
      let more = errors_of-lookup ms k reason m (rw there at found) fails in
      λ e. ground (arith, more)
]
