-- ===== src/Natives.antt =====
-- internal/automation/modules: the modules path, timeutil and fetch, and how all seven native modules
-- come into the registry: cmds/events-service/main.go imports their packages, and the init function
-- of each (register.go) calls modules.Register. Packages filepath, time and apis/pkg/timeutil enter
-- by what they give; what a module makes for an engine is an argument.
pub mod Required
use Prim.Native.String.{◌++◌ as append_text}
use events_service.Base.{
  List, [], ◌∷◌, ℕ, false, String, Option, none, some, Outcome, done, ◌>>=◌, insert,
}
use events_service.Base.Try.{Try, returned, thrown}
use events_service.Modules.{Registry, Module, Instantiated, failed, ignored, object, register}

-- obj.Set, for one name after the other
abbrev pub set_members {ℓ} :
    {F : Type ℓ} → List (String × F) → List (String × F) → List (String × F)
set_members [] obj = obj
set_members ((name, f) ∷ more) obj = set_members more (insert name f obj)

-- The functions of package filepath that scripts get.
pub data PathFunction : Type 0 where
  filepath_join : PathFunction
  filepath_ext : PathFunction
  filepath_clean : PathFunction
  filepath_abs : PathFunction
  filepath_is_abs : PathFunction
  filepath_dir : PathFunction
  filepath_glob : PathFunction
  filepath_base : PathFunction

-- The object of the module path.
unfoldable pub path_object : List (String × PathFunction)
unfolding insert
path_object =
    set_members
      (("join", filepath_join)
        ∷ ("ext", filepath_ext)
        ∷ ("clean", filepath_clean)
        ∷ ("abs", filepath_abs)
        ∷ ("isAbs", filepath_is_abs)
        ∷ ("dir", filepath_dir)
        ∷ ("glob", filepath_glob)
        ∷ ("basename", filepath_base)
        ∷ [])
      []

-- Packages time and apis/pkg/timeutil, and Runtime.RunScript.
pub record TimePackage : Type 1 where
  pub Time : Type 0
  pub DayTime : Type 0
  pub DayTimeRange : Type 0
  pub Timestamp : Type 0
  pub V : Type 0
  pub E : Type 0
  pub time_funcs : List (String × (Time → Time))
  pub format_rfc3339 : Time → String
  pub run_script : String → String → Try E V
  pub parse_rfc3339 : String → Try E Time
  pub parse_start : String → Try E Time
  pub parse_end : String → Try E Time
  pub parse_day_time : String → Try E DayTime
  pub parse_day_time_range : String → Try E DayTimeRange
  pub timestamp : Time → Timestamp

module _ (p : TimePackage) where
  open p use {
    Time, DayTime, DayTimeRange, Timestamp, V, E, time_funcs, format_rfc3339, run_script,
    parse_rfc3339, parse_start, parse_end, parse_day_time, parse_day_time_range, timestamp,
  }

  -- commonv1.TimeRange
  pub record TimeRange : Type 0 where
    pub from : Timestamp
    pub to : Timestamp

  -- What a script can call.
  pub data TimeMember : Type 0 where
    of_time : (Time → Try E V) → TimeMember
    time_of_text : (String → Try E Time) → TimeMember
    day_time_of_text : (String → Try E DayTime) → TimeMember
    range_of_text : (String → Try E DayTimeRange) → TimeMember
    range_of_times : (Time → Time → TimeRange) → TimeMember

  -- A function of TimeFuncs: its result, written out, becomes a Date of the script.
  unfoldable pub time_function : String → (Time → Time) → Time → Try E V
  time_function key val t =
      run_script key (append_text "new Date('" (append_text (format_rfc3339 (val t)) "')"))

  unfoldable pub create_range : Time → Time → TimeRange
  create_range start end = record { from = timestamp start; to = timestamp end }

  unfoldable pub set_time_funcs :
      List (String × (Time → Time)) → List (String × TimeMember) → List (String × TimeMember)
  unfolding time_function insert
  set_time_funcs [] obj = obj
  set_time_funcs ((key, val) ∷ more) obj =
      set_time_funcs more (insert key (of_time (time_function key val)) obj)

  -- The object of the module timeutil. parseDayTime and parseDayTimeRange throw the error of the
  -- parser, where parse, parseStart and parseEnd return it, which throws it too.
  unfoldable pub timeutil_object : List (String × TimeMember)
  unfolding set_time_funcs create_range insert
  timeutil_object =
      set_members
        (("parse", time_of_text parse_rfc3339)
          ∷ ("parseStart", time_of_text parse_start)
          ∷ ("parseEnd", time_of_text parse_end)
          ∷ ("parseDayTime", day_time_of_text parse_day_time)
          ∷ ("parseDayTimeRange", range_of_text parse_day_time_range)
          ∷ ("createRange", range_of_times create_range)
          ∷ [])
        (set_time_funcs time_funcs [])

-- The module fetch: fetch.Enable adds a global function, and there is no object.
abbrev pub fetch_instance : Option String → Instantiated
fetch_instance none = ignored
fetch_instance (some reason) = failed reason

-- What the modules make for an engine: the objects, what the module services makes, and the error
-- of fetch.Enable. The module encoding sets two globals, and makes no object.
pub record Natives : Type 0 where
  pub services : Instantiated
  pub fetch_error : Option String
  pub fs_object : ℕ
  pub path_exports : ℕ
  pub template_object : ℕ
  pub timeutil_exports : ℕ

abbrev pub native : String → Instantiated → Module
native name made = record { name = name; new_module_instance = made }

-- The seven modules. That of encoding sets TextEncoder and TextDecoder as globals and returns nil.
abbrev pub connect_module : Natives → Module
connect_module n = native "services" n.services

abbrev pub encoding_module : Module
encoding_module = native "encoding" ignored

abbrev pub fetch_module : Natives → Module
fetch_module n = native "fetch" (fetch_instance n.fetch_error)

abbrev pub fs_module : Natives → Module
fs_module n = native "fs" (object n.fs_object)

abbrev pub path_module : Natives → Module
path_module n = native "path" (object n.path_exports)

abbrev pub template_module : Natives → Module
template_module n = native "template" (object n.template_object)

abbrev pub timeutil_module : Natives → Module
timeutil_module n = native "timeutil" (object n.timeutil_exports)

-- The modules in the order of the imports.
abbrev pub native_modules : Natives → List Module
native_modules n =
    connect_module n
    ∷ encoding_module
    ∷ fetch_module n
    ∷ fs_module n
    ∷ path_module n
    ∷ template_module n
    ∷ timeutil_module n
    ∷ []

-- DefaultRegistry
abbrev pub default_registry : Registry
default_registry = record { lock = record { readers = 0; writer = false }; modules = [] }

-- The init functions, one after the other; each drops the error of Register.
unfoldable pub init_all : List Module → Registry → Outcome Registry
unfolding register
init_all [] reg = done reg
init_all (m ∷ ms) reg = do r ← register reg m; init_all ms r.0
