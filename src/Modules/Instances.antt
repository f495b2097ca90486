-- ===== src/Modules/Instances.antt =====
-- internal/automation/modules/registry.go, EnableModules: which modules scripts can load.
use mathlib.Core.List.{append_assoc, append-nil}
use events_service.Base.{
  List, [], ◌∷◌, ◌++◌, String, done, ◌≡◌, ◌≢◌, false, suc, refl, sym, arith, >>=-eq-done,
}
use events_service.Modules.{
  Registry, Module, Instance, Instantiated, failed, ignored, object, Gathered, Enabled, gather,
  enable_modules, read_lock, finish, RwMutex,
}

-- The objects that the modules made, each under its module's name, in the order of the map.
unfoldable pub instances_of : List (String × Module) → List Instance
instances_of [] = []
instances_of ((_, m) ∷ ms) = elim m.new_module_instance [
  | object o ↦ record { name = m.name; module_object = o } ∷ instances_of ms
  | _ ↦ instances_of ms
]

-- The modules that failed, each with its error.
unfoldable pub errors_of : List (String × Module) → List (String × String)
errors_of [] = []
errors_of ((_, m) ∷ ms) = elim m.new_module_instance [
  | failed e ↦ (m.name, e) ∷ errors_of ms
  | _ ↦ errors_of ms
]

abbrev Gathers : List (String × Module) → Gathered → Type 0
Gathers ms g =
    ((gather ms g).instances ≡ g.instances ++ instances_of ms)
    × ((gather ms g).errors ≡ g.errors ++ errors_of ms)

gather-cons :
    (k : String) (m : Module) (ms : List (String × Module)) (g : Gathered) (x : Instantiated)
    → m.new_module_instance ≡ x
    → ((g' : Gathered) → Gathers ms g')
    → Gathers ((k, m) ∷ ms) g
unfolding gather instances_of errors_of
gather-cons k m ms g (failed s) e ih =
    let g' = record g { errors = g.errors ++ (m.name, s) ∷ [] } in
    ground (arith, ih g', append_assoc g.errors ((m.name, s) ∷ []) (errors_of ms))
gather-cons k m ms g ignored e ih = ground (arith, ih g)
gather-cons k m ms g (object o) e ih =
    let made : Instance = record { name = m.name; module_object = o } in
    let g' = record g { instances = g.instances ++ made ∷ [] } in
    ground (arith, ih g', append_assoc g.instances (made ∷ []) (instances_of ms))

gather_lem : (ms : List (String × Module)) (g : Gathered) → Gathers ms g
unfolding gather instances_of errors_of
gather_lem [] g = (sym (append-nil g.instances), sym (append-nil g.errors))
gather_lem ((k, m) ∷ ms) g = gather-cons k m ms g m.new_module_instance refl (gather_lem ms)

-- The modules that scripts can load: those with an object, provided that no module failed.
abbrev pub loadable : List Instance → List (String × String) → List Instance
loadable is [] = is
loadable is (e ∷ es) = []

-- EnableModules returns the instances of the modules that made an object and the errors of all
-- that failed, and makes the instances known to require() if and only if no module failed.
pub enable_modules_lem :
    (reg reg' : Registry) (e : Enabled)
    → enable_modules reg ≡ done (reg', e)
    → (e.instances ≡ instances_of reg.modules)
      × (e.errors ≡ errors_of reg.modules)
      × (e.registered ≡ loadable (instances_of reg.modules) (errors_of reg.modules))
unfolding enable_modules
enable_modules_lem reg reg' e h =
    let (l, e₁, h₁) = >>=-eq-done (read_lock reg.lock) _ h in
    let (l', e₂, h₂) = >>=-eq-done (read_lock l) _ h₁ in
    ground (arith, gather_lem reg.modules (record { instances = []; errors = [] }))

-- Without a writer, EnableModules ends.
pub enable_modules-done :
    (reg : Registry)
    → reg.lock.writer ≡ false
    → (r : Registry × Enabled) × (enable_modules reg ≡ done r)
unfolding enable_modules read_lock
enable_modules-done reg free =
    let held : RwMutex = record reg.lock { readers = suc (suc reg.lock.readers) } in
    let g = gather reg.modules (record { instances = []; errors = [] }) in
    ((record reg { lock = held }, finish g), rw free refl)

-- A module that failed has its error among those of the registry.
pub errors_of-failed :
    (first : List (String × Module)) (k reason : String) (m : Module)
    (last : List (String × Module))
    → m.new_module_instance ≡ failed reason
    → errors_of (first ++ (k, m) ∷ last) ≢ []
unfolding errors_of
errors_of-failed [] k reason m last h = λ e. ground arith
errors_of-failed ((_, n) ∷ first) k reason m last h =
    let more = errors_of-failed first k reason m last h in λ e. ground (arith, more)
