-- ===== src/Startup/Bundles.antt =====
-- cmds/events-service/main.go: preparing the bundles one after the other.
use events_service.Base.{
  ℕ, List, [], ◌∷◌, map, All, true, false, String, Option, none, some, Outcome, done, ◌>>=◌, ◌≡◌,
  refl, ◌∙◌, ap, Bool-cases, inl, inr, if◌then◌else◌, suc, Bool,
}
use events_service.Engine.{
  Engine, EngineOption, Config, apply_options, default_engine, new_engine, enabled_engine,
}
use events_service.Modules.{Registry, Module, RwMutex, gather, finish, enable_modules, read_lock}
use events_service.Bundle.{
  Bundle, PrepareEnv, PrepareError, lock, prepare, prepare_held, prepare_options, on_engine,
  with_vars, start_runtime, set_globals, unlock, Runtime, entry_point_failed, vars_unread,
  vars_unparsed, Vars, vars, vars_missing, vars_unreadable, vars_malformed,
}
use events_service.Startup.{prepare_each}

-- A bundle that Discover has made, and nobody has prepared.
abbrev pub Fresh : Bundle → Type 0
Fresh b = (b.locked ≡ false) × (b.runtime ≡ none)

-- The registry, as far as EnableModules finds it.
abbrev pub SameModules : Registry → Registry → Type 0
SameModules reg reg' = (reg'.modules ≡ reg.modules) × (reg'.lock.writer ≡ false)

-- The engine that New makes, by the modules of the registry.
abbrev engine_of : Engine → List (String × Module) → Option Engine
engine_of e modules =
    if e.use_modules
    then enabled_engine e (finish (gather modules (record { instances = []; errors = [] })))
    else some e

new_engine-SameModules :
    (name : String) (cfg : Config) (opts : List EngineOption) (reg : Registry)
    → reg.lock.writer ≡ false
    → (reg' : Registry) × (new_engine name cfg opts reg
        ≡ done (
          reg',
          engine_of
              (record (apply_options opts (default_engine name cfg)) { loop_started = true })
              reg.modules,
        ))
      × SameModules reg reg'
unfolding new_engine enable_modules read_lock
new_engine-SameModules name cfg opts reg free =
    let e : Engine = record (apply_options opts (default_engine name cfg)) {
      loop_started = true;
    } in
    elim (Bool-cases e.use_modules) [
      | inl used ↦
          let held : RwMutex = record reg.lock { readers = suc (suc reg.lock.readers) } in
          (record reg { lock = held }, rw (used, free) refl, (refl, free))
      | inr unused ↦ (reg, rw unused refl, (refl, free))
    ]

prepare-new_engine :
    (env : PrepareEnv) (cfg : Config) (printer : ℕ) (opts : List EngineOption) (b : Bundle)
    (reg : Registry) (n : Registry × Option Engine)
    → Fresh b
    → new_engine b.path cfg (prepare_options (record b { locked = true }) printer opts) reg ≡ done n
    → prepare env cfg printer opts b reg ≡ on_engine env (record b { locked = true }) n
unfolding prepare lock prepare_held
prepare-new_engine env cfg printer opts b reg n (free, fresh) made = rw (free, fresh, made) refl

-- Every script returns.
abbrev pub Returning : PrepareEnv → Type 0
Returning env = (script : String) → (ran : Bool) × (env.script_runs script ≡ done ran)

start_runtime-done :
    (env : PrepareEnv) (b : Bundle) (e : Engine) (params : List (String × String))
    → Returning env
    → (r : Bundle × Option PrepareError) × (start_runtime env b e params ≡ done r)
unfolding start_runtime
start_runtime-done env b e params returning =
    let (ran, runs) = returning b.script_content in
    let g = set_globals env.settable params b.automation_config.parameters [] in
    let r : Runtime = record { engine = e; globals = g; scripts = b.script_content ∷ [] } in
    (
      (record (unlock b) { runtime = some r }, if ran then none else some entry_point_failed),
      rw runs refl,
    )

with_vars-done :
    (env : PrepareEnv) (b : Bundle) (e : Engine)
    → Returning env
    → (r : Bundle × Option PrepareError) × (with_vars env b e ≡ done r)
unfolding with_vars
with_vars-done env b e returning = by_vars env.vars_json refl
  where
    with_file :
        (r : Bundle × Option PrepareError) (ps : List (String × String))
        → env.vars_json ≡ vars ps
        → start_runtime env b e ps ≡ done r
        → with_vars env b e ≡ done r
    with_file r ps is runs = rw (with_vars, is) runs

    without_file :
        (r : Bundle × Option PrepareError)
        → env.vars_json ≡ vars_missing
        → start_runtime env b e [] ≡ done r
        → with_vars env b e ≡ done r
    without_file r is runs = rw (with_vars, is) runs

    by_vars :
        (v : Vars)
        → env.vars_json ≡ v
        → (r : Bundle × Option PrepareError) × (with_vars env b e ≡ done r)
    by_vars (vars ps) is =
        let (r, runs) = start_runtime-done env b e ps returning in (r, with_file r ps is runs)
    by_vars vars_missing is =
        let (r, runs) = start_runtime-done env b e [] returning in (r, without_file r is runs)
    by_vars vars_unreadable is = ((b, some vars_unread), rw is refl)
    by_vars vars_malformed is = ((b, some vars_unparsed), rw is refl)

-- The registry goes through Prepare as New leaves it, and decides nothing else.
on_engine-registry :
    (env : PrepareEnv) (b : Bundle) (o : Option Engine)
    → Returning env
    → (r : Bundle × Option PrepareError) × ((reg : Registry)
        → on_engine env b (reg, o) ≡ done (r.0, reg, r.1))
unfolding on_engine
on_engine-registry env b none returning = (_, λ reg. refl)
on_engine-registry env b (some e) returning =
    let (r, runs) = with_vars-done env b e returning in (r, λ reg. rw runs refl)

-- What Prepare makes of a bundle, the registry aside.
abbrev pub prepared_alone :
    (Bundle → PrepareEnv)
    → Config
    → ℕ
    → List EngineOption
    → Registry
    → Bundle
    → Outcome (Bundle × Option PrepareError)
prepared_alone envs cfg printer opts reg b =
    prepare (envs b) cfg printer opts b reg >>= λ r. done (r.0, r.2)

module _ (envs : Bundle → PrepareEnv) (cfg : Config) (printer : ℕ) (opts : List EngineOption)
    (returning : (b : Bundle) → Returning (envs b)) where
  prepare-SameModules :
      (b : Bundle) (reg reg₁ : Registry)
      → Fresh b
      → reg.lock.writer ≡ false
      → SameModules reg reg₁
      → (r : Bundle × Registry × Option PrepareError) × (prepare (envs b) cfg printer opts b reg₁
          ≡ done r)
        × (prepared_alone envs cfg printer opts reg b ≡ done (r.0, r.2))
        × SameModules reg r.1
  unfolding prepare
  prepare-SameModules b reg reg₁ (free, fresh) open_ same =
      let held : Bundle = record b { locked = true } in
      let options = prepare_options held printer opts in
      let e : Engine = record (apply_options options (default_engine b.path cfg)) {
        loop_started = true;
      } in
      let (reg', run, kept) = new_engine-SameModules b.path cfg options reg open_ in
      let (reg₂, run₁, kept₁) = new_engine-SameModules b.path cfg options reg₁ same.1 in
      let o = engine_of e reg.modules in
      let made₁ : new_engine b.path cfg options reg₁ ≡ done (reg₂, o) =
        run₁ ∙ ap (λ ms. done (reg₂, engine_of e ms)) same.0 in
      let (r, goes_through) = on_engine-registry (envs b) held o (returning b) in
      (
        (r.0, reg₂, r.1),
        prepare-new_engine (envs b) cfg printer opts b reg₁ (reg₂, o) (free, fresh) made₁
            ∙ goes_through reg₂,
        ap (λ p. p >>= λ x. done (x.0, x.2))
            (prepare-new_engine (envs b) cfg printer opts b reg (reg', o) (free, fresh) run
              ∙ goes_through reg'),
        (kept₁.0 ∙ same.0, kept₁.1),
      )

  prepare_each-SameModules :
      (bs : List Bundle) (reg reg₁ : Registry)
      → All Fresh bs
      → reg.lock.writer ≡ false
      → SameModules reg reg₁
      → (rs : List (Bundle × Option PrepareError)) × (reg' : Registry) × (prepare_each envs cfg
            printer opts bs reg₁
          ≡ done (rs, reg'))
        × (map (prepared_alone envs cfg printer opts reg) bs ≡ map done rs)
  unfolding prepare_each
  prepare_each-SameModules [] reg reg₁ fresh open_ same = ([], reg₁, refl, refl)
  prepare_each-SameModules (b ∷ bs) reg reg₁ (new, fresh) open_ same =
      let (r, run, alone, same') = prepare-SameModules b reg reg₁ new open_ same in
      let (rs, reg', more, rest) = prepare_each-SameModules bs reg r.1 fresh open_ same' in
      (
        (r.0, r.2) ∷ rs,
        reg',
        rw (run, more) refl,
        ap (λ x. x ∷ map (prepared_alone envs cfg printer opts reg) bs) alone
            ∙ ap (λ xs. done (r.0, r.2) ∷ xs) rest,
      )

  -- From bundles that Discover made, whose scripts return, and a registry to which no one is writing,
  -- the loop ends, and
  -- each bundle gets what its Prepare makes of it alone, in their order: what becomes of one bundle
  -- depends on no other, and an error keeps none from being prepared.
  pub prepare_each-alone :
      (bs : List Bundle) (reg : Registry)
      → All Fresh bs
      → reg.lock.writer ≡ false
      → (rs : List (Bundle × Option PrepareError)) × (reg' : Registry) × (prepare_each envs cfg
            printer opts bs reg
          ≡ done (rs, reg'))
        × (map (prepared_alone envs cfg printer opts reg) bs ≡ map done rs)
  prepare_each-alone bs reg fresh open_ =
      prepare_each-SameModules bs reg reg fresh open_ (refl, open_)
