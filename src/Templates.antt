-- ===== src/Templates.antt =====
-- internal/automation/modules/template/template.go: templates for scripts. Package html/template and
-- the conversions between Go and script values enter by a record; what a registered callback does
-- besides its result is left out.
pub mod Registered
use events_service.Base.{
  List, [], ◌∷◌, map, Bool, true, false, ◌&&◌, String, Outcome, done, panic, invalid_function_name,
  insert, if◌then◌else◌, string_eq,
}
use events_service.Base.Try.{Try, returned, thrown, ◌>>=◌}

-- html/template over values A, and the script engine's values V. `usable` tells whether a name can
-- stand for a function in a template: Funcs is documented to panic on any other.
pub record Package : Type 1 where
  pub A : Type 0
  pub V : Type 0
  pub E : Type 0
  pub T : Type 0
  pub usable : String → Bool
  pub parse : List (String × (List A → Try E A)) → String → Try E T
  pub execute : T → A → Try E String
  pub to_value : A → V
  pub export_value : V → A

module _ (p : Package) where
  open p use {A, V, E, T, usable, parse, execute, to_value, export_value}

  -- goja.Callable, called with the template object as `this`
  abbrev pub Callable : Type 0
  Callable = List V → Try E V

  -- templateInstance
  pub record TemplateInstance : Type 0 where
    pub fn : List (String × Callable)

  -- new Template()
  abbrev pub new_template : TemplateInstance
  new_template = record { fn = [] }

  -- register
  unfoldable pub register : TemplateInstance → String → Callable → TemplateInstance
  unfolding insert
  register t name call = record t { fn = insert name call t.fn }

  -- A registered callback as a function of the template.
  unfoldable pub template_function : Callable → List A → Try E A
  template_function val args = do res ← val (map to_value args); returned (export_value res)

  -- fnMap
  unfoldable pub fn_map : List (String × Callable) → List (String × (List A → Try E A))
  unfolding template_function
  fn_map [] = []
  fn_map ((key, val) ∷ rest) = (key, template_function val) ∷ fn_map rest

  -- The test that Funcs makes of the names.
  unfoldable pub all_usable : List (String × Callable) → Bool
  all_usable [] = true
  all_usable ((key, val) ∷ rest) = usable key && all_usable rest

  -- Parse, then Execute; an error of either is thrown into the script.
  unfoldable pub render : List (String × Callable) → String → A → Try E String
  unfolding fn_map
  render fns text args = do tmp ← parse (fn_map fns) text; execute tmp args

  -- exec
  unfoldable pub exec : TemplateInstance → String → A → Outcome (Try E String)
  unfolding all_usable render
  exec t text args =
      if all_usable t.fn then done (render t.fn text args) else panic invalid_function_name
