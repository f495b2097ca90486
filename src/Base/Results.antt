-- ===== src/Base/Results.antt =====
-- How a call of Go code can end: with a value, in a run-time panic, or waiting for ever.
use mathlib.Core.Path.{◌≡◌, refl}

pub data Fault : Type 0 where
  nil_pointer : Fault
  send_on_closed_channel : Fault
  close_of_closed_channel : Fault
  invalid_function_name : Fault

pub data Outcome {ℓ} (A : Type ℓ) : Type ℓ where
  done : A → Outcome A
  panic : Fault → Outcome A
  blocked : Outcome A

infixl 5 ◌>>=◌
abbrev pub ◌>>=◌ {ℓ κ} : {A : Type ℓ} {B : Type κ} → Outcome A → (A → Outcome B) → Outcome B
done a >>= f = f a
panic x >>= f = panic x
blocked >>= f = blocked

-- A successful bind went through a value.
pub >>=-eq-done {ℓ κ} :
    {A : Type ℓ} {B : Type κ} (m : Outcome A) (f : A → Outcome B) {b : B}
    → (m >>= f) ≡ done b
    → (a : A) × (m ≡ done a) × (f a ≡ done b)
>>=-eq-done (done a) f h = (a, refl, h)
>>=-eq-done (panic x) f h = cc
>>=-eq-done blocked f h = cc

pub >>=_assoc {ℓ κ μ} :
    {A : Type ℓ} {B : Type κ} {C : Type μ} (m : Outcome A) (f : A → Outcome B) (g : B → Outcome C)
    → ((m >>= f) >>= g) ≡ (m >>= λ a. f a >>= g)
>>=_assoc (done a) f g = refl
>>=_assoc (panic x) f g = refl
>>=_assoc blocked f g = refl
