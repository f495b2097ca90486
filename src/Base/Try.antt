-- ===== src/Base/Try.antt =====
-- How a call of Go code ends that may return an error, or throw one into a script.
use mathlib.Core.Path.{◌≡◌, refl}
use mathlib.Core.Logic.{◌⊎◌, inl, inr}
use mathlib.Core.Option.{Option, none, some}

pub data Try (E A : Type 0) : Type 0 where
  returned : A → Try E A
  thrown : E → Try E A

infixl 5 ◌>>=◌
abbrev pub ◌>>=◌ : {E A B : Type 0} → Try E A → (A → Try E B) → Try E B
returned a >>= f = f a
thrown e >>= f = thrown e

-- What is missing is the error `e`.
abbrev pub or_throw : {E A : Type 0} → Option A → E → Try E A
or_throw none e = thrown e
or_throw (some a) e = returned a

-- A bind that returns went through a value.
pub >>=-eq-returned :
    {E A B : Type 0} (t : Try E A) (f : A → Try E B) {b : B}
    → (t >>= f) ≡ returned b
    → (a : A) × (t ≡ returned a) × (f a ≡ returned b)
>>=-eq-returned (returned a) f h = (a, refl, h)
>>=-eq-returned (thrown e) f h = cc

pub or_throw-eq-returned :
    {E A : Type 0} (o : Option A) (e : E) {a : A} → or_throw o e ≡ returned a → o ≡ some a
or_throw-eq-returned none e h = cc
or_throw-eq-returned (some a) e h = cc

pub Try-cases :
    {E A : Type 0} (t : Try E A) → ((e : E) × (t ≡ thrown e)) ⊎ ((a : A) × (t ≡ returned a))
Try-cases (thrown e) = inl (e, refl)
Try-cases (returned a) = inr (a, refl)
