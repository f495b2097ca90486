-- ===== src/Bundle/Mutex.antt =====
-- internal/automation/bundle/bundle.go: when the bundle's mutex is released.
use events_service.Base.{
  ℕ, List, Bool, true, false, String, Option, none, some, done, blocked, >>=-eq-done, [], inl, inr,
  Bool-cases, ◌≡◌, refl, ◌∙◌, arith,
}
use events_service.Engine.{EngineOption, Config, Engine, new_engine}
use events_service.Modules.{Registry}
use events_service.Bundle.{
  Bundle, Level, Runtime, PrepareEnv, PrepareError, bundle_runtime_prepared, engine_failed, Vars,
  vars, vars_missing, vars_unreadable, vars_malformed, vars_unparsed, vars_unread,
  entry_point_failed, lock, runtime_of, read_logs, internal_log, with_vars, start_runtime, prepare,
  prepare_held, on_engine, prepare_options,
}

-- The results after which the mutex stays locked.
abbrev pub leaves_locked : Option PrepareError → Bool
leaves_locked (some vars_unparsed) = true
leaves_locked (some vars_unread) = true
leaves_locked (some bundle_runtime_prepared) = false
leaves_locked (some engine_failed) = false
leaves_locked (some entry_point_failed) = false
leaves_locked none = false

start_runtime-locked :
    (env : PrepareEnv) (b : Bundle) (e : Engine) (params : List (String × String))
    (r : Bundle × Option PrepareError)
    → start_runtime env b e params ≡ done r
    → r.0.locked ≡ leaves_locked r.1
unfolding start_runtime
start_runtime-locked env b e params r h =
    let (ran, _, ends) = >>=-eq-done (env.script_runs b.script_content) _ h in
    elim (Bool-cases ran) [ inl fine ↦ ground arith | inr failed ↦ ground arith ]

with_vars-locked :
    (env : PrepareEnv) (b : Bundle) (e : Engine) (r : Bundle × Option PrepareError)
    → b.locked ≡ true
    → with_vars env b e ≡ done r
    → r.0.locked ≡ leaves_locked r.1
unfolding with_vars
with_vars-locked env b e r l h = by_vars env.vars_json refl
  where
    by_vars : (v : Vars) → env.vars_json ≡ v → r.0.locked ≡ leaves_locked r.1
    by_vars (vars ps) is = start_runtime-locked env b e ps r (rw (with_vars, is) at h)
    by_vars vars_missing is = start_runtime-locked env b e [] r (rw (with_vars, is) at h)
    by_vars vars_unreadable is = ground arith
    by_vars vars_malformed is = ground arith

lock-locked : (b l : Bundle) → lock b ≡ done l → l.locked ≡ true
unfolding lock
lock-locked b l h = ground arith

on_engine-locked :
    (env : PrepareEnv) (b : Bundle) (n : Registry × Option Engine)
    (r : Bundle × Registry × Option PrepareError)
    → b.locked ≡ true
    → on_engine env b n ≡ done r
    → r.0.locked ≡ leaves_locked r.2
unfolding on_engine
on_engine-locked env b (reg, none) r l h = ground arith
on_engine-locked env b (reg, some e) r l h =
    let (x, runs, ends) = >>=-eq-done (with_vars env b e) _ h in
    let same : (x.0, reg, x.1) ≡ r = cc ends in rw (← same) (with_vars-locked env b e x l runs)

prepare_held-locked :
    (env : PrepareEnv) (cfg : Config) (printer : ℕ) (opts : List EngineOption) (b : Bundle)
    (reg : Registry) (o : Option Runtime) (r : Bundle × Registry × Option PrepareError)
    → b.locked ≡ true
    → prepare_held env cfg printer opts b reg o ≡ done r
    → r.0.locked ≡ leaves_locked r.2
unfolding prepare_held
prepare_held-locked env cfg printer opts b reg (some x) r l h = ground arith
prepare_held-locked env cfg printer opts b reg none r l h =
    let (n, _, e) = >>=-eq-done (new_engine b.path cfg (prepare_options b printer opts) reg) _ h in
    on_engine-locked env b n r l e

-- Prepare on a bundle returns with the mutex locked exactly when it returns one of the two errors
-- about vars.json.
pub prepare-locked :
    (env : PrepareEnv) (cfg : Config) (printer : ℕ) (opts : List EngineOption) (b b' : Bundle)
    (reg reg' : Registry) (err : Option PrepareError)
    → prepare env cfg printer opts b reg ≡ done (b', reg', err)
    → b'.locked ≡ leaves_locked err
unfolding prepare
prepare-locked env cfg printer opts b b' reg reg' err h =
    let (l, e, rest) = >>=-eq-done (lock b) _ h in
    prepare_held-locked env cfg printer opts l reg l.runtime (b', reg', err) (lock-locked b l e)
      rest

held : (b : Bundle) → b.locked ≡ true → lock b ≡ blocked
unfolding lock
held b h = rw h

-- Once Prepare has returned an error about vars.json, every later call on the bundle waits for
-- ever: Runtime, ReadLogs, the console's Log, Warn and Error, and Prepare itself.
pub prepare_then_blocked :
    (env : PrepareEnv) (cfg : Config) (printer : ℕ) (opts : List EngineOption) (b b' : Bundle)
    (reg reg' reg₂ : Registry) (err : Option PrepareError) (min lvl : Level) (now : ℕ)
    (msg : String)
    → prepare env cfg printer opts b reg ≡ done (b', reg', err)
    → leaves_locked err ≡ true
    → (runtime_of b' ≡ blocked)
      × (read_logs b' min ≡ blocked)
      × (internal_log b' now lvl msg ≡ blocked)
      × (prepare env cfg printer opts b' reg₂ ≡ blocked)
unfolding runtime_of read_logs internal_log prepare
prepare_then_blocked env cfg printer opts b b' reg reg' reg₂ err min lvl now msg h e =
    let stays = held b' (prepare-locked env cfg printer opts b b' reg reg' err h ∙ e) in
    (rw (stays, runtime_of), rw (stays, read_logs), rw (stays, internal_log), rw (stays, prepare))
