-- ===== src/Broker/Dispatch/Laws.antt =====
-- What a message does to the histories of the channels.
use mathlib.Core.List.{append_assoc, append-nil}
use events_service.Base.{
  ℕ, suc, ◌+◌, ◌≤◌, List, [], ◌∷◌, ◌++◌, Bool, false, done, ◌≡◌, refl, sym, ◌∙◌, ap, arith, ◌⊎◌,
  inl, inr, length, replicate, count, ◌==◌, nat_eq, Bool-cases, nat_eqb_iff, if◌then◌else◌,
}
use events_service.Chan.{Channel, Chans, update, history}
use events_service.Chan.Laws.{send_or_timeout_open, send_or_timeout_room}
use events_service.Broker.{Env, Event}
use events_service.Broker.Dispatch.{next_drain, later_drains, fan_out}

-- Every receiver is an open channel.
abbrev pub AllOpen : Chans Event → List ℕ → Type 0
AllOpen cs rs = (c : ℕ) → 1 ≤ count c rs → (cs c).closed ≡ false

-- Every receiver has room for as many entries as it stands in the list.
abbrev pub AllRoom : Chans Event → List ℕ → Type 0
AllRoom cs rs = (c : ℕ) → 1 ≤ count c rs → length (cs c).buffer + count c rs ≤ (cs c).capacity

AllOpen-update :
    (cs : Chans Event) (x : ℕ) (rs : List ℕ) (ch : Channel Event)
    → AllOpen cs (x ∷ rs)
    → ch.closed ≡ false
    → AllOpen (update cs x ch) rs
AllOpen-update cs x rs ch o k c h = ground (arith, o c)

AllRoom-update :
    (cs : Chans Event) (x : ℕ) (rs : List ℕ) (ch : Channel Event)
    → AllRoom cs (x ∷ rs)
    → length ch.buffer ≡ length (cs x).buffer + 1
    → ch.capacity ≡ (cs x).capacity
    → AllRoom (update cs x ch) rs
AllRoom-update cs x rs ch r l k c h = ground (arith, r c, nat_eqb_iff x c)

-- One more entry at the front of the later ones.
history-cons :
    (cs cs' : Chans Event) (x c : ℕ) (n : ℕ) (ch : Channel Event) (e : Event)
    → history ch ≡ history (cs x) ++ e ∷ []
    → history (cs' c) ≡ history (update cs x ch c) ++ replicate n e
    → history (cs' c) ≡ history (cs c) ++ replicate (if x == c then suc n else n) e
history-cons cs cs' x c n ch e h d = elim (Bool-cases (x == c)) [
  | inl same ↦ rw same (d ∙ rw (same, h, append_assoc, (nat_eqb_iff x c).0 same))
  | inr other ↦ rw other (d ∙ rw other)
]

-- The entry may also have been dropped.
history-grow :
    (cs cs' : Chans Event) (x c : ℕ) (m : ℕ) (ch : Channel Event) (e : Event)
    → (history ch ≡ history (cs x)) ⊎ (history ch ≡ history (cs x) ++ e ∷ [])
    → (n : ℕ) × (n ≤ m) × (history (cs' c) ≡ history (update cs x ch c) ++ replicate n e)
    → (n : ℕ) × (n ≤ (if x == c then suc m else m))
      × (history (cs' c) ≡ history (cs c) ++ replicate n e)
history-grow cs cs' x c m ch e (inl same) (n, le, d) =
    (n, ground arith, d ∙ ap (λ h. h ++ replicate n e) (ground (arith, nat_eqb_iff x c)))
history-grow cs cs' x c m ch e (inr more) (n, le, d) =
    (if x == c then suc n else n, ground arith, history-cons cs cs' x c n ch e more d)

module _ (env : Env) (pb : Event) (cloned : env.clone pb ≡ pb) where
  -- With room for all of them, each receiver gets the event as often as it is registered.
  pub fan_out_room :
      (rs : List ℕ) (ds : List Bool) (cs : Chans Event)
      → AllOpen cs rs
      → AllRoom cs rs
      → (cs' : Chans Event) × (fan_out env pb rs ds cs ≡ done cs')
        × ((c : ℕ) → history (cs' c) ≡ history (cs c) ++ replicate (count c rs) pb)
  unfolding fan_out
  fan_out_room [] ds cs o r = (cs, refl, λ c. sym (append-nil (history (cs c))))
  fan_out_room (x ∷ rs) ds cs o r =
      let (ch, e, h, l, k, k') =
        send_or_timeout_room (cs x) pb (next_drain ds) (o x (ground arith)) (ground (arith, r x)) in
      let (cs', e', d) =
        fan_out_room rs (later_drains ds) (update cs x ch) (AllOpen-update cs x rs ch o k')
          (AllRoom-update cs x rs ch r l k) in
      (cs', rw (cloned, e) e', λ c. history-cons cs cs' x c (count c rs) ch pb h (d c))

  -- Whatever the readers do, the loop ends, and each history grows by some number of copies, at
  -- most one for each registration.
  pub fan_out_open :
      (rs : List ℕ) (ds : List Bool) (cs : Chans Event)
      → AllOpen cs rs
      → (cs' : Chans Event) × (fan_out env pb rs ds cs ≡ done cs')
        × ((c : ℕ)
            → (n : ℕ) × (n ≤ count c rs) × (history (cs' c) ≡ history (cs c) ++ replicate n pb))
        × ((c : ℕ) → (cs' c).closed ≡ (cs c).closed)
  unfolding fan_out
  fan_out_open [] ds cs o =
      (cs, refl, λ c. (0, omega arith, sym (append-nil (history (cs c)))), λ c. refl)
  fan_out_open (x ∷ rs) ds cs o =
      let (ch, e, k, h) = send_or_timeout_open (cs x) pb (next_drain ds) (o x (ground arith)) in
      let (cs', e', d, f) =
        fan_out_open rs (later_drains ds) (update cs x ch) (AllOpen-update cs x rs ch o k) in
      (
        cs',
        rw (cloned, e) e',
        λ c. history-grow cs cs' x c (count c rs) ch pb h (d c),
        λ c. ground (arith, f c, o x, nat_eqb_iff x c),
      )
