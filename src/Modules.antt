-- ===== src/Modules.antt =====
-- internal/automation/modules/registry.go: the registry of native modules, behind a
-- sync.RWMutex. What a module itself does in NewModuleInstance is the module's, and enters as the
-- result of that call. EnableModules takes a read lock and, by its `defer`, a second one.
pub mod Locking
pub mod Instances
pub mod Lookup
use events_service.Base.{
  ℕ, zero, suc, List, [], ◌∷◌, ◌++◌, Bool, true, false, ◌||◌, String, Option, none, some, Outcome,
  done, blocked, ◌>>=◌, insert, lookup, ltb, if◌then◌else◌,
}

-- sync.RWMutex: how many read locks are held, and whether the write lock is
pub record RwMutex : Type 0 where
  pub readers : ℕ
  pub writer : Bool

-- What NewModuleInstance returns: an error, nil, or an object.
pub data Instantiated : Type 0 where
  failed : String → Instantiated
  ignored : Instantiated
  object : ℕ → Instantiated

pub record Module : Type 0 where
  pub name : String
  pub new_module_instance : Instantiated

pub record Registry : Type 0 where
  pub lock : RwMutex
  pub modules : List (String × Module)

pub record Instance : Type 0 where
  pub name : String
  pub module_object : ℕ

-- Lock, Unlock and RLock
unfoldable pub write_lock : RwMutex → Outcome RwMutex
write_lock m = if m.writer || ltb 0 m.readers then blocked else done (record m { writer = true })

unfoldable pub write_unlock : RwMutex → RwMutex
write_unlock m = record m { writer = false }

unfoldable pub read_lock : RwMutex → Outcome RwMutex
read_lock m = if m.writer then blocked else done (record m { readers = suc m.readers })

pub data RegisterError : Type 0 where
  module_registered : RegisterError

-- Registry.Register
unfoldable pub register : Registry → Module → Outcome (Registry × Option RegisterError)
unfolding write_lock write_unlock lookup insert
register reg mod_ = do
  l ← write_lock reg.lock
  done (elim (lookup mod_.name reg.modules) [
    | some _ ↦ (record reg { lock = write_unlock l }, some module_registered)
    | none ↦
        (record reg { lock = write_unlock l; modules = insert mod_.name mod_ reg.modules }, none)
  ])

-- What the loop over the modules gathers: the instances and the errors so far.
pub record Gathered : Type 0 where
  pub instances : List Instance
  pub errors : List (String × String)

unfoldable pub gather : List (String × Module) → Gathered → Gathered
gather [] g = g
gather ((_, m) ∷ ms) g = gather ms (elim m.new_module_instance [
  | failed e ↦ record g { errors = g.errors ++ (m.name, e) ∷ [] }
  | ignored ↦ g
  | object o ↦ record g {
    instances = g.instances ++ record { name = m.name; module_object = o } ∷ [];
  }
])

-- The modules that require() can load afterwards, and what EnableModules returns.
pub record Enabled : Type 0 where
  pub registered : List Instance
  pub instances : List Instance
  pub errors : List (String × String)

abbrev pub finish : Gathered → Enabled
finish g = elim g.errors [
  | [] ↦ record { registered = g.instances; instances = g.instances; errors = [] }
  | e ∷ es ↦ record { registered = []; instances = g.instances; errors = e ∷ es }
]

-- Registry.EnableModules
unfoldable pub enable_modules : Registry → Outcome (Registry × Enabled)
unfolding read_lock gather
enable_modules reg = do
  l ← read_lock reg.lock
  let g = gather reg.modules (record { instances = []; errors = [] })
  l' ← read_lock l
  done (record reg { lock = l' }, finish g)
