-- ===== src/Chan/Filling.antt =====
-- How much a send fills the buffer of a channel.
use events_service.Base.{
  ℕ, ◌+◌, ◌≤◌, List, [], ◌∷◌, ◌++◌, Bool, done, ◌≡◌, refl, arith, inl, inr, Bool-cases, length,
  length-append,
}
use events_service.Chan.{Channel, put, pass_on, hand_off, send, send_or_timeout, has_room}
use events_service.Chan.Growth.{length-hand_off, capacity-hand_off}

-- The buffer of a channel has grown by at most n entries, and its capacity has stayed.
pub record Fills {E : Type 0} (n : ℕ) (a b : Channel E) : Type 0 where
  pub filled : length b.buffer ≤ length a.buffer + n
  pub capacity_same : b.capacity ≡ a.capacity

module _ {E : Type 0} where
  put-Fills : (a : Channel E) (e : E) → Fills 1 a (put a e)
  unfolding put
  put-Fills a e = record {
    filled = omega (arith, length-append a.buffer (e ∷ []));
    capacity_same = refl;
  }

  pass_on-Fills : (a : Channel E) (e : E) → Fills 1 a (pass_on a e)
  unfolding pass_on
  pass_on-Fills a e = record {
    filled = omega (arith, length-hand_off a.buffer e a);
    capacity_same = capacity-hand_off (a.buffer ++ e ∷ []) a;
  }

  pub send_or_timeout-Fills :
      (a b : Channel E) (e : E) (drains : Bool) → send_or_timeout a e drains ≡ done b → Fills 1 a b
  unfolding send_or_timeout
  send_or_timeout-Fills a b e drains h = elim (Bool-cases a.closed) [
    | inl shut ↦ absurd (ground arith)
    | inr open_ ↦ elim (Bool-cases (has_room a)) [
      | inl room ↦ let same : put a e ≡ b = ground arith in rw (← same) (put-Fills a e)
      | inr full ↦ elim (Bool-cases drains) [
        | inl takes ↦ let same : pass_on a e ≡ b = ground arith in rw (← same) (pass_on-Fills a e)
        | inr keeps ↦
            let same : a ≡ b = ground arith in
            rw (← same) (record { filled = omega arith; capacity_same = refl })
      ]
    ]
  ]

  pub send-Fills :
      (a b : Channel E) (e : E) (drains : Bool) → send a e drains ≡ done b → Fills 1 a b
  unfolding send
  send-Fills a b e drains h = elim (Bool-cases a.closed) [
    | inl shut ↦ absurd (ground arith)
    | inr open_ ↦ elim (Bool-cases (has_room a)) [
      | inl room ↦ let same : put a e ≡ b = ground arith in rw (← same) (put-Fills a e)
      | inr full ↦ elim (Bool-cases drains) [
        | inl takes ↦ let same : pass_on a e ≡ b = ground arith in rw (← same) (pass_on-Fills a e)
        | inr waits ↦ absurd (ground arith)
      ]
    ]
  ]

  -- Taking an entry out makes room.
  pub taken-Fills : (a : Channel E) → Fills 0 a (hand_off a.buffer a)
  taken-Fills a = taken a.buffer refl
    where
      taken : (b : List E) → a.buffer ≡ b → Fills 0 a (hand_off b a)
      taken [] e = unfold hand_off in record { filled = omega arith; capacity_same = refl }
      taken (x ∷ b) e = unfold hand_off in record { filled = ground arith; capacity_same = refl }
