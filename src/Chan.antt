-- ===== src/Chan.antt =====
-- Go channels as the broker uses them: a bounded buffer, a closed flag, and what the reader has
-- taken out so far. `select` with a timeout and a plain send differ in what they do when the
-- buffer stays full: whether the reader makes room in time is the environment's choice `drains`.
pub mod Laws
pub mod Growth
pub mod Filling
use events_service.Base.{
  ℕ, List, [], ◌∷◌, ◌++◌, Bool, true, false, Outcome, done, panic, blocked, send_on_closed_channel,
  close_of_closed_channel, length, ltb, if◌then◌else◌, ◌==◌, nat_eq,
}

pub record Channel (E : Type 0) : Type 0 where
  pub buffer : List E
  pub capacity : ℕ
  pub closed : Bool
  pub received : List E

module _ {E : Type 0} where
  -- Everything that was ever sent, oldest first.
  abbrev pub history : Channel E → List E
  history c = c.received ++ c.buffer

  pub put : Channel E → E → Channel E
  put c e = record c { buffer = c.buffer ++ e ∷ [] }

  unfoldable pub hand_off : List E → Channel E → Channel E
  hand_off [] c = c
  hand_off (e ∷ rest) c = record c { buffer = rest; received = c.received ++ e ∷ [] }

  -- The reader takes the oldest entry, and the new one takes its place.
  pub pass_on : Channel E → E → Channel E
  unfolding put hand_off
  pass_on c e = hand_off (c.buffer ++ e ∷ []) c

  abbrev pub has_room : Channel E → Bool
  has_room c = ltb (length c.buffer) c.capacity

  -- select { case c <- e: case <-time.After(5s): }
  unfoldable pub send_or_timeout : Channel E → E → Bool → Outcome (Channel E)
  unfolding put pass_on
  send_or_timeout c e drains =
      if c.closed
      then panic send_on_closed_channel
      else if has_room c
      then done (put c e)
      else if drains
      then done (pass_on c e)
      else done c

  -- c <- e
  unfoldable pub send : Channel E → E → Bool → Outcome (Channel E)
  unfolding put pass_on
  send c e drains =
      if c.closed
      then panic send_on_closed_channel
      else if has_room c
      then done (put c e)
      else if drains
      then done (pass_on c e)
      else blocked

  abbrev pub shut : Channel E → Channel E
  shut c = record c { closed = true }

  -- close(c)
  unfoldable pub close : Channel E → Outcome (Channel E)
  close c = if c.closed then panic close_of_closed_channel else done (shut c)

  -- make(chan E, n)
  abbrev pub make : ℕ → Channel E
  make n = record { buffer = []; capacity = n; closed = false; received = [] }

-- The channels of the program, by their identity.
abbrev pub Chans : Type 0 → Type 0
Chans E = ℕ → Channel E

abbrev pub update : {E : Type 0} → Chans E → ℕ → Channel E → Chans E
update cs c ch d = if c == d then ch else cs d
