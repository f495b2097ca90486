-- ===== src/Examples/Registering.antt =====
-- The module registry at concrete inputs.
use events_service.Base.{[], ◌∷◌, false, blocked, ◌≡◌, refl, string_eq}
use events_service.Modules.{Registry, Module, Enabled, failed, object, register, enable_modules}
use events_service.Modules.Locking.{enables, after_all, enable_modules_blocks}

abbrev clock : Module
clock = record { name = "clock"; new_module_instance = object 4 }

abbrev path : Module
path = record { name = "path"; new_module_instance = failed "no loop" }

abbrev registry : Registry
registry = record { lock = record { readers = 0; writer = false }; modules = ("clock", clock) ∷ [] }

abbrev after_first : Registry
after_first = record registry { lock = record { readers = 2; writer = false } }

abbrev after_second : Registry
after_second = record registry { lock = record { readers = 4; writer = false } }

abbrev enabled : Enabled
enabled = record {
  registered = record { name = "clock"; module_object = 4 } ∷ [];
  instances = record { name = "clock"; module_object = 4 } ∷ [];
  errors = [];
}

enable_modules_blocks_example : register after_second path ≡ blocked
unfolding enable_modules after_all
enable_modules_blocks_example =
    enable_modules_blocks registry after_first after_second enabled (enables ∷ []) path refl refl
