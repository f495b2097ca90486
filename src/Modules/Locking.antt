-- ===== src/Modules/Locking.antt =====
-- internal/automation/modules/registry.go: what the lock lets through.
use events_service.Base.{
  ◌+◌, ◌<◌, List, [], ◌∷◌, false, String, none, some, Outcome, done, blocked, ◌>>=◌, >>=-eq-done,
  insert, lookup, lookup-insert, ◌==◌, string_eq, if◌then◌else◌, ◌≡◌, refl, arith, inl, inr,
  Option-cases, ◌⊎◌,
}
use events_service.Modules.{Registry, Module, Enabled, module_registered, register, enable_modules}

-- The calls of the registry's methods, one after the other.
pub data RegistryCall : Type 0 where
  registers : Module → RegistryCall
  enables : RegistryCall

unfoldable pub after : RegistryCall → Registry → Outcome Registry
after (registers m) reg = register reg m >>= λ r. done r.0
after enables reg = enable_modules reg >>= λ r. done r.0

unfoldable pub after_all : List RegistryCall → Registry → Outcome Registry
unfolding after
after_all [] reg = done reg
after_all (c ∷ cs) reg = after c reg >>= after_all cs

-- A registration on a free registry ends with the lock free. It files the module under its name,
-- every other name keeping its module, unless the name is taken; then it returns
-- ErrModuleRegistered and changes nothing.
pub register_lem :
    (reg : Registry) (m : Module) (key : String)
    → reg.lock ≡ record { readers = 0; writer = false }
    → ((taken : Module) × (lookup m.name reg.modules ≡ some taken)
        × (register reg m ≡ done (reg, some module_registered)))
      ⊎ ((reg' : Registry) × (lookup m.name reg.modules ≡ none)
          × (register reg m ≡ done (reg', none))
          × (reg'.lock ≡ reg.lock)
          × (lookup key reg'.modules ≡ (if m.name == key then some m else lookup key reg.modules)))
unfolding register
register_lem reg m key free = elim (Option-cases (lookup m.name reg.modules)) [
  | inl new ↦ inr (
    record reg { modules = insert m.name m reg.modules },
    new,
    ground arith,
    refl,
    lookup-insert m.name key m reg.modules,
  )
  | inr (taken, old) ↦ inl (taken, old, ground arith)
]

enable_modules_readers :
    (reg reg' : Registry) (e : Enabled)
    → enable_modules reg ≡ done (reg', e)
    → reg'.lock.readers ≡ reg.lock.readers + 2
unfolding enable_modules
enable_modules_readers reg reg' e h = ground arith

held_blocks : (reg : Registry) (m : Module) → 0 < reg.lock.readers → register reg m ≡ blocked
unfolding register
held_blocks reg m h = ground arith

held_stays :
    (c : RegistryCall) (reg reg' : Registry)
    → 0 < reg.lock.readers
    → after c reg ≡ done reg'
    → 0 < reg'.lock.readers
unfolding after
held_stays (registers m) reg reg' h e = ground (arith, held_blocks reg m h)
held_stays enables reg reg' h e =
    let ((reg₁, en), run, last) = >>=-eq-done (enable_modules reg) (λ r. done r.0) e in
    let same : reg₁ ≡ reg' = cc in
    rw (← same) (omega (arith, enable_modules_readers reg reg₁ en run))

held_for_ever :
    (cs : List RegistryCall) (reg reg' : Registry)
    → 0 < reg.lock.readers
    → after_all cs reg ≡ done reg'
    → 0 < reg'.lock.readers
unfolding after_all
held_for_ever [] reg reg' h e = ground arith
held_for_ever (c ∷ cs) reg reg' h e =
    let (reg₁, first, rest) = >>=-eq-done (after c reg) (after_all cs) e in
    held_for_ever cs reg₁ reg' (held_stays c reg reg₁ h first) rest

-- Once EnableModules has returned, no registration ever succeeds again: whatever is called in
-- between, a later Register waits for ever.
pub enable_modules_blocks :
    (reg reg₁ reg₂ : Registry) (e : Enabled) (cs : List RegistryCall) (m : Module)
    → enable_modules reg ≡ done (reg₁, e)
    → after_all cs reg₁ ≡ done reg₂
    → register reg₂ m ≡ blocked
enable_modules_blocks reg reg₁ reg₂ e cs m h run =
    held_blocks reg₂ m
      (held_for_ever cs reg₁ reg₂ (omega (arith, enable_modules_readers reg reg₁ e h)) run)
