-- ===== src/Bundle/Parameters.antt =====
-- internal/automation/bundle/bundle.go: the globals that Prepare sets, its options, and the logs.
use events_service.Base.{
  ℕ, List, [], ◌∷◌, ◌++◌, Bool, true, String, Option, none, some, done, ◌≡◌, refl, arith, lookup,
  insert, lookup-insert, Unique, eq_iff, string_eq, if◌then◌else◌,
}
use events_service.Bundle.{
  Bundle, Level, Log, value_or, set_globals, logs_from, internal_log, read_logs, level_leb, lock,
}

-- The value that a parameter gets: that of vars.json, else its default.
abbrev pub global_value :
    List (String × String) → String → Option String → Option String → Option String
global_value params name none old = old
global_value params name (some default) old = some (value_or (lookup name params) default)

-- If the runtime takes every name, the loop of Prepare gives each parameter of the bundle the
-- value from vars.json, or its default where vars.json has none, and leaves every other global
-- alone. (The map of parameters has one entry for each name.)
pub lookup-set_globals :
    (settable : String → Bool) (params parameters globals : List (String × String)) (name : String)
    → ((n : String) → settable n ≡ true)
    → Unique parameters
    → lookup name (set_globals settable params parameters globals)
      ≡ global_value params name (lookup name parameters) (lookup name globals)
unfolding set_globals lookup
lookup-set_globals settable params [] globals name ok u = refl
lookup-set_globals settable params ((n, d) ∷ rest) globals name ok u = ground (
  arith,
  ok n,
  eq_iff n name,
  lookup-insert n name (value_or (lookup n params) d) globals,
  lookup-set_globals settable params rest (insert n (value_or (lookup n params) d) globals) name ok
      u.1,
)

logs_from-append :
    (min : Level) (xs ys : List Log)
    → logs_from min (xs ++ ys) ≡ logs_from min xs ++ logs_from min ys
unfolding logs_from
logs_from-append min [] ys = refl
logs_from-append min (x ∷ xs) ys = ground (arith, logs_from-append min xs ys)

-- A message that the console has logged is read back behind those before it, by every minimum
-- level up to its own, and by no higher one.
pub read_logs-internal_log :
    (b b' : Bundle) (now : ℕ) (lvl min : Level) (msg : String)
    → internal_log b now lvl msg ≡ done b'
    → read_logs b' min
      ≡ done (
        b',
        logs_from min b.logs
            ++ (if level_leb min lvl
                then record { time = now; log_level = lvl; message = msg } ∷ []
                else []),
      )
unfolding internal_log read_logs lock logs_from
read_logs-internal_log b b' now lvl min msg h = ground (
  arith,
  logs_from-append min b.logs (record { time = now; log_level = lvl; message = msg } ∷ []),
)
