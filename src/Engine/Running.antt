-- ===== src/Engine/Running.antt =====
-- internal/automation/engine.go, Run and RunScript: a function or a script on the event loop, and the
-- two channels by which its value and its error come back.
use events_service.Base.{
  [], ◌∷◌, Bool, true, false, Option, Outcome, done, blocked, ◌>>=◌, if◌then◌else◌, ◌≡◌, refl,
}
use events_service.Chan.{Channel, make, send, hand_off}

module _ {E : Type 0} where
  -- <-c
  unfoldable pub receive : Channel E → Outcome (E × Channel E)
  unfolding hand_off
  receive c = elim c.buffer [ [] ↦ blocked | e ∷ rest ↦ done (e, hand_off (e ∷ rest) c) ]

module _ {V E : Type 0} where
  -- What RunOnLoop gets: the value goes out before the error.
  unfoldable pub answer :
      V × Option E → Channel V → Channel (Option E) → Outcome (Channel V × Channel (Option E))
  unfolding send
  answer (v, err) values errs = do vs ← send values v false; es ← send errs err false; done (vs, es)

  -- Run, and RunScript, which runs a script instead of a function. `runs` is whether the loop comes
  -- to the job: it does not once Stop has ended it.
  unfoldable pub run_job : Bool → V × Option E → Outcome (V × Option E)
  unfolding answer receive
  run_job runs result = do
    cs ← if runs then answer result (make 1) (make 1) else done (make 1, make 1)
    v ← receive cs.0
    e ← receive cs.1
    done (v.0, e.0)

  -- The loop never waits for the caller, and the caller gets the value and the error; if the loop
  -- does not come to the job, the caller waits for ever.
  pub run_job_lem : (r : V × Option E) → (run_job true r ≡ done r) × (run_job false r ≡ blocked)
  unfolding run_job
  run_job_lem (v, e) = (refl, refl)
