-- ===== src/Chan/Growth.antt =====
-- What every operation on a channel keeps: its bound, and the order of what was sent.
use mathlib.Core.List.{append_assoc, append-nil}
use events_service.Base.{
  ℕ, ◌≤◌, List, [], ◌∷◌, ◌++◌, Bool, true, done, ◌≡◌, refl, sym, ◌∙◌, ap, arith, inl, inr, length,
  length-append, Bool-cases, nat_eq, ◌==◌, nat_eqb_iff,
}
use events_service.Chan.{
  Channel, Chans, history, put, hand_off, pass_on, send_or_timeout, send, has_room, shut, update,
}
use events_service.Chan.Laws.{history-put, history-pass_on, closed-hand_off}

extended :
    {A : Type 0} (a b c : List A)
    → ((m : List A) × (b ≡ a ++ m))
    → ((n : List A) × (c ≡ b ++ n))
    → (m : List A) × (c ≡ a ++ m)
extended a b c (m, e) (n, f) = (m ++ n, f ∙ ap (λ l. l ++ n) e ∙ append_assoc a m n)

module _ {E : Type 0} where
  -- A later state of a channel: of the same capacity, not over it if it was not, closed if it was,
  -- and with all that was sent or read before still there, in the same order.
  pub record Grows (a b : Channel E) : Type 0 where
    pub capacity : b.capacity ≡ a.capacity
    pub bounded : length a.buffer ≤ a.capacity → length b.buffer ≤ b.capacity
    pub closed : a.closed ≡ true → b.closed ≡ true
    pub sent : (more : List E) × (history b ≡ history a ++ more)
    pub read : (more : List E) × (b.received ≡ a.received ++ more)

  pub Grows-refl : (a : Channel E) → Grows a a
  Grows-refl a = record {
    capacity = refl;
    bounded = λ h. h;
    closed = λ h. h;
    sent = ([], sym (append-nil (history a)));
    read = ([], sym (append-nil a.received));
  }

  pub Grows-trans : (a b c : Channel E) → Grows a b → Grows b c → Grows a c
  Grows-trans a b c g h = record {
    capacity = h.capacity ∙ g.capacity;
    bounded = λ x. h.bounded (g.bounded x);
    closed = λ x. h.closed (g.closed x);
    sent = extended (history a) (history b) (history c) g.sent h.sent;
    read = extended a.received b.received c.received g.read h.read;
  }

  put-Grows : (a : Channel E) (e : E) → has_room a ≡ true → Grows a (put a e)
  unfolding put
  put-Grows a e room = record {
    capacity = refl;
    bounded = λ h. ground (arith, length-append a.buffer (e ∷ []));
    closed = λ h. h;
    sent = (e ∷ [], history-put a e);
    read = ([], sym (append-nil a.received));
  }

  pub length-hand_off :
      (b : List E) (e : E) (a : Channel E) → length (hand_off (b ++ e ∷ []) a).buffer ≡ length b
  unfolding hand_off
  length-hand_off [] e a = refl
  length-hand_off (x ∷ b) e a = ground (arith, length-append b (e ∷ []))

  received-hand_off :
      (b : List E) (a : Channel E)
      → (more : List E) × ((hand_off b a).received ≡ a.received ++ more)
  unfolding hand_off
  received-hand_off [] a = ([], sym (append-nil a.received))
  received-hand_off (x ∷ b) a = (x ∷ [], refl)

  pub capacity-hand_off : (b : List E) (a : Channel E) → (hand_off b a).capacity ≡ a.capacity
  unfolding hand_off
  capacity-hand_off [] a = refl
  capacity-hand_off (x ∷ b) a = refl

  pass_on-Grows : (a : Channel E) (e : E) → Grows a (pass_on a e)
  unfolding pass_on
  pass_on-Grows a e = record {
    capacity = capacity-hand_off (a.buffer ++ e ∷ []) a;
    bounded = λ h. rw (length-hand_off a.buffer e a, capacity-hand_off (a.buffer ++ e ∷ []) a) h;
    closed = λ h. closed-hand_off (a.buffer ++ e ∷ []) a ∙ h;
    sent = (e ∷ [], unfold pass_on in history-pass_on a e);
    read = received-hand_off (a.buffer ++ e ∷ []) a;
  }

  -- The reader takes the oldest entry.
  pub hand_off-Grows : (a : Channel E) → Grows a (hand_off a.buffer a)
  unfolding hand_off
  hand_off-Grows a = taken a.buffer refl
    where
      taken : (b : List E) → a.buffer ≡ b → Grows a (hand_off b a)
      taken [] e = Grows-refl a
      taken (x ∷ b) e = record {
        capacity = refl;
        bounded = λ h. ground arith;
        closed = λ h. h;
        sent = (
          [],
          append_assoc a.received (x ∷ []) b
              ∙ ap (λ l. a.received ++ l) (sym e)
              ∙ sym (append-nil (history a)),
        );
        read = (x ∷ [], refl);
      }

  pub shut-Grows : (a : Channel E) → Grows a (shut a)
  shut-Grows a = record {
    capacity = refl;
    bounded = λ h. h;
    closed = λ h. refl;
    sent = ([], sym (append-nil (history a)));
    read = ([], sym (append-nil a.received));
  }

  pub send_or_timeout-Grows :
      (a b : Channel E) (e : E) (drains : Bool) → send_or_timeout a e drains ≡ done b → Grows a b
  unfolding send_or_timeout
  send_or_timeout-Grows a b e drains h = elim (Bool-cases a.closed) [
    | inl shut ↦ absurd (ground arith)
    | inr open_ ↦ elim (Bool-cases (has_room a)) [
      | inl room ↦
          let run : send_or_timeout a e drains ≡ done (put a e) = rw (open_, room) refl in
          let same : put a e ≡ b = cc (run, h) in rw (← same) (put-Grows a e room)
      | inr full ↦ elim (Bool-cases drains) [
        | inl takes ↦
            let run : send_or_timeout a e drains ≡ done (pass_on a e) =
              rw (open_, full, takes) refl in
            let same : pass_on a e ≡ b = cc (run, h) in rw (← same) (pass_on-Grows a e)
        | inr keeps ↦ let same : a ≡ b = ground arith in rw (← same) (Grows-refl a)
      ]
    ]
  ]

  pub send-Grows : (a b : Channel E) (e : E) (drains : Bool) → send a e drains ≡ done b → Grows a b
  unfolding send
  send-Grows a b e drains h = elim (Bool-cases a.closed) [
    | inl shut ↦ absurd (ground arith)
    | inr open_ ↦ elim (Bool-cases (has_room a)) [
      | inl room ↦
          let run : send a e drains ≡ done (put a e) = rw (open_, room) refl in
          let same : put a e ≡ b = cc (run, h) in rw (← same) (put-Grows a e room)
      | inr full ↦ elim (Bool-cases drains) [
        | inl takes ↦
            let run : send a e drains ≡ done (pass_on a e) = rw (open_, full, takes) refl in
            let same : pass_on a e ≡ b = cc (run, h) in rw (← same) (pass_on-Grows a e)
        | inr keeps ↦ absurd (ground arith)
      ]
    ]
  ]

  -- Every channel grows.
  abbrev pub AllGrow : Chans E → Chans E → Type 0
  AllGrow cs ds = (c : ℕ) → Grows (cs c) (ds c)

  pub AllGrow-refl : (cs : Chans E) → AllGrow cs cs
  AllGrow-refl cs c = Grows-refl (cs c)

  pub AllGrow-trans : (cs ds es : Chans E) → AllGrow cs ds → AllGrow ds es → AllGrow cs es
  AllGrow-trans cs ds es g h c = Grows-trans (cs c) (ds c) (es c) (g c) (h c)

  pub update-AllGrow :
      (cs : Chans E) (a : ℕ) (b : Channel E) → Grows (cs a) b → AllGrow cs (update cs a b)
  update-AllGrow cs a b g c = elim (Bool-cases (a == c)) [
    | inl same ↦ rw (same, ← (nat_eqb_iff a c).0 same) g
    | inr other ↦ rw other (Grows-refl (cs c))
  ]
