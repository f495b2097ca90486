-- ===== src/Templates/Registered.antt =====
-- internal/automation/modules/template/template.go: a template after any registrations.
use events_service.Base.{
  List, [], ◌∷◌, true, false, ◌&&◌, String, Option, none, some, done, panic, invalid_function_name,
  ◌≡◌, refl, ap, ◌∙◌, arith, ◌==◌, string_eq, eq_iff, lookup, insert, lookup-insert, if◌then◌else◌,
}
use mathlib.Core.Option
use events_service.Base.Try.{Try, ◌>>=◌}
use events_service.Templates.{
  Package, Callable, TemplateInstance, new_template, register, template_function, fn_map,
  all_usable, render, exec,
}

module _ (p : Package) where
  open p use {A, V, E, T, usable}

  -- The calls of register, the first one first.
  unfoldable pub register_all : List (String × Callable p) → TemplateInstance p → TemplateInstance p
  unfolding register
  register_all [] t = t
  register_all ((name, call) ∷ rest) t = register_all rest (register p t name call)

  -- What a name was registered with last, if it was.
  abbrev pub last_of :
      String → List (String × Callable p) → Option (Callable p) → Option (Callable p)
  last_of name [] before = before
  last_of name ((k, call) ∷ rest) before =
      last_of name rest (if k == name then some call else before)

  all_usable-insert :
      (name : String) (call : Callable p) (fns : List (String × Callable p))
      → all_usable p (insert name call fns) ≡ (usable name && all_usable p fns)
  unfolding all_usable insert
  all_usable-insert name call [] = refl
  all_usable-insert name call ((k, v) ∷ fns) =
      ground (arith, eq_iff k name, all_usable-insert name call fns)

  all_usable-register_all :
      (regs : List (String × Callable p)) (t : TemplateInstance p)
      → all_usable p (register_all regs t).fn ≡ (all_usable p regs && all_usable p t.fn)
  unfolding register_all all_usable register
  all_usable-register_all [] t = refl
  all_usable-register_all ((name, call) ∷ rest) t = ground (
    arith,
    all_usable-register_all rest (register p t name call),
    all_usable-insert name call t.fn,
  )

  lookup-register_all :
      (regs : List (String × Callable p)) (t : TemplateInstance p) (name : String)
      → lookup name (register_all regs t).fn ≡ last_of name regs (lookup name t.fn)
  unfolding register_all register
  lookup-register_all [] t name = refl
  lookup-register_all ((k, call) ∷ rest) t name =
      rw (← lookup-insert k name call t.fn) (lookup-register_all rest (register p t k call) name)

  lookup-fn_map :
      (fns : List (String × Callable p)) (name : String)
      → lookup name (fn_map p fns) ≡ Option.map (template_function p) (lookup name fns)
  unfolding fn_map lookup
  lookup-fn_map [] name = refl
  lookup-fn_map ((k, call) ∷ fns) name = ground (arith, lookup-fn_map fns name)

  all_usable-registered :
      (regs : List (String × Callable p))
      → all_usable p (register_all regs (new_template p)).fn ≡ all_usable p regs
  unfolding all_usable
  all_usable-registered regs = ground (arith, all_usable-register_all regs (new_template p))

  -- After any calls of register on a new template: if each name can stand for a function in a
  -- template, exec ends with what parsing and executing the text gives, its functions the callbacks
  -- that were registered last under each name; if one name cannot, exec panics on every text and
  -- argument, though register took the name, and whatever is registered after it.
  pub exec-register_all :
      (regs : List (String × Callable p)) (text : String) (args : A)
      → let t = register_all regs (new_template p) in
        (all_usable p regs ≡ true
          → (fns : List (String × (List A → Try E A))) × (exec p t text args
              ≡ done (p.parse fns text >>= λ tmp. p.execute tmp args))
            × ((name : String)
                → lookup name fns ≡ Option.map (template_function p) (last_of name regs none)))
        × (all_usable p regs ≡ false → exec p t text args ≡ panic invalid_function_name)
  unfolding exec render lookup
  exec-register_all regs text args =
      let t = register_all regs (new_template p) in
      (
        (λ good. (
          fn_map p t.fn,
          rw (all_usable-registered regs, good) refl,
          λ name.
              lookup-fn_map t.fn name
              ∙ ap (Option.map (template_function p))
                  (lookup-register_all regs (new_template p) name),
        )),
        (λ bad. rw (all_usable-registered regs, bad) refl),
      )
