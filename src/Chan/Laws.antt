-- ===== src/Chan/Laws.antt =====
-- What a send adds to the history of a channel.
use mathlib.Core.List.{append_assoc, append-nil}
use events_service.Base.{
  blocked, List, [], ◌∷◌, ◌++◌, Bool, false, done, ◌≡◌, refl, sym, ◌∙◌, ap, arith, ◌⊎◌, inl, inr,
  ◌<◌, length, Bool-cases, length-append, ◌+◌,
}
use events_service.Chan.{Channel, history, put, hand_off, pass_on, send_or_timeout, send, has_room}

module _ {E : Type 0} where
  pub history-put : (c : Channel E) (e : E) → history (put c e) ≡ history c ++ e ∷ []
  unfolding put
  history-put c e = sym (append_assoc c.received c.buffer (e ∷ []))

  history-hand_off :
      (b : List E) (e : E) (c : Channel E)
      → history (hand_off (b ++ e ∷ []) c) ≡ c.received ++ (b ++ e ∷ [])
  unfolding hand_off
  history-hand_off [] e c = append-nil (c.received ++ e ∷ [])
  history-hand_off (x ∷ b) e c = append_assoc c.received (x ∷ []) (b ++ e ∷ [])

  pub history-pass_on : (c : Channel E) (e : E) → history (pass_on c e) ≡ history c ++ e ∷ []
  unfolding pass_on
  history-pass_on c e =
      history-hand_off c.buffer e c ∙ sym (append_assoc c.received c.buffer (e ∷ []))

  pub closed-hand_off : (l : List E) (c : Channel E) → (hand_off l c).closed ≡ c.closed
  unfolding hand_off
  closed-hand_off [] c = refl
  closed-hand_off (x ∷ l) c = refl

  closed-pass_on : (c : Channel E) (e : E) → (pass_on c e).closed ≡ c.closed
  unfolding pass_on
  closed-pass_on c e = closed-hand_off (c.buffer ++ e ∷ []) c

  closed-put : (c : Channel E) (e : E) → (put c e).closed ≡ c.closed
  unfolding put
  closed-put c e = refl

  -- A send to an open channel with a timeout ends, leaves the channel open, and adds the entry
  -- once or not at all.
  pub send_or_timeout_open :
      (c : Channel E) (e : E) (drains : Bool)
      → c.closed ≡ false
      → (c' : Channel E) × (send_or_timeout c e drains ≡ done c')
        × (c'.closed ≡ false)
        × ((history c' ≡ history c) ⊎ (history c' ≡ history c ++ e ∷ []))
  unfolding send_or_timeout
  send_or_timeout_open c e drains open_c = elim (Bool-cases (has_room c)) [
    | inl room ↦ (put c e, rw (open_c, room), closed-put c e ∙ open_c, inr (history-put c e))
    | inr full ↦ elim (Bool-cases drains) [
      | inl d ↦ (
        pass_on c e,
        rw (open_c, full, d),
        closed-pass_on c e ∙ open_c,
        inr (history-pass_on c e),
      )
      | inr d ↦ (c, rw (open_c, full, d), open_c, inl refl)
    ]
  ]

  -- With room in the buffer the entry is added at once, whatever the reader does.
  pub send_or_timeout_room :
      (c : Channel E) (e : E) (drains : Bool)
      → c.closed ≡ false
      → length c.buffer < c.capacity
      → (c' : Channel E) × (send_or_timeout c e drains ≡ done c')
        × (history c' ≡ history c ++ e ∷ [])
        × (length c'.buffer ≡ length c.buffer + 1)
        × (c'.capacity ≡ c.capacity)
        × (c'.closed ≡ false)
  unfolding send_or_timeout put
  send_or_timeout_room c e drains open_c room =
      (put c e, ground arith, history-put c e, length-append c.buffer (e ∷ []), refl, open_c)

  -- A plain send to an open channel waits for ever, or ends with the channel open.
  pub send_open :
      (c : Channel E) (e : E) (drains : Bool)
      → c.closed ≡ false
      → (send c e drains ≡ blocked)
        ⊎ ((c' : Channel E) × (send c e drains ≡ done c') × (c'.closed ≡ false))
  unfolding send
  send_open c e drains open_c = elim (Bool-cases (has_room c)) [
    | inl room ↦ inr (put c e, rw (open_c, room), closed-put c e ∙ open_c)
    | inr full ↦ elim (Bool-cases drains) [
      | inl d ↦ inr (pass_on c e, rw (open_c, full, d), closed-pass_on c e ∙ open_c)
      | inr d ↦ inl (rw (open_c, full, d))
    ]
  ]

  -- So it is for a plain send, which then does not wait.
  pub send_room :
      (c : Channel E) (e : E) (drains : Bool)
      → c.closed ≡ false
      → length c.buffer < c.capacity
      → (c' : Channel E) × (send c e drains ≡ done c') × (history c' ≡ history c ++ e ∷ [])
  unfolding send put
  send_room c e drains open_c room = (put c e, ground arith, history-put c e)

  -- A plain send that ends has added the entry.
  pub history-send :
      (c c' : Channel E) (e : E) (drains : Bool)
      → send c e drains ≡ done c'
      → history c' ≡ history c ++ e ∷ []
  unfolding send
  history-send c c' e drains h = elim (Bool-cases c.closed) [
    | inl shut ↦ absurd (ground arith)
    | inr open_ ↦ elim (Bool-cases (has_room c)) [
      | inl room ↦ let same : put c e ≡ c' = ground arith in rw (← same) (history-put c e)
      | inr full ↦ elim (Bool-cases drains) [
        | inl takes ↦
            let same : pass_on c e ≡ c' = ground arith in rw (← same) (history-pass_on c e)
        | inr waits ↦ absurd (ground arith)
      ]
    ]
  ]

  -- Taking the oldest entry out of the buffer leaves the history as it was.
  pub history-taken : (c : Channel E) → history (hand_off c.buffer c) ≡ history c
  history-taken c = taken c.buffer refl
    where
      taken : (b : List E) → c.buffer ≡ b → history (hand_off b c) ≡ history c
      taken [] e = unfold hand_off in refl
      taken (x ∷ b) e =
          unfold hand_off in append_assoc c.received (x ∷ []) b ∙ ap (λ l. c.received ++ l) (sym e)
