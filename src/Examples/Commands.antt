-- ===== src/Examples/Commands.antt =====
-- The commands of the client, and templates and modules of scripts, at concrete inputs.
use events_service.Base.{
  Outcome, ℕ, List, [], ◌∷◌, ◌++◌, true, false, String, Option, none, some, done, panic,
  invalid_function_name, ◌≡◌, ◌↔◌, refl, arith, nat_eq, string_eq, lookup, replicate, count, ◌==◌,
  if◌then◌else◌,
}
use mathlib.Core.Option
use events_service.Text.{trim_prefix}
use events_service.Base.Try.{Try, returned, thrown, ◌>>=◌}
use events_service.Chan.{history}
use events_service.Broker.{World, Event, AnyMessage, receivers_of, publish_call, make_topic}
use events_service.Broker.Dispatch.{handle_message}
use events_service.Broker.Dispatch.Laws.{AllRoom}
use events_service.Cli.{DayTime, Finished, event_of, ended, publish_command}
use events_service.Cli.Publish.{publish_command-handle_message}
use events_service.Templates.{Package, Callable, new_template, template_function, exec, all_usable}
use events_service.Templates.Registered.{register_all, last_of, exec-register_all}
use events_service.Modules.{Registry, ignored}
use events_service.Modules.Lookup.{require_native}
use events_service.Engine.{Engine, Config, new_engine}
use events_service.Natives.{Natives, native_modules, default_registry, init_all}
use events_service.Natives.Required.{
  Reordered, Refuses, registered, native_object, new_engine-natives,
}
use events_service.Examples.Fixtures.{env_for, world_with}

-- The event of the command, to the subscribers of the service.
abbrev day_time_url : String
day_time_url = "type.googleapis.com/tkd.common.v1.DayTime"

abbrev day_time_any : AnyMessage
day_time_any = record { type_url = day_time_url; value = 8 ∷ 27 ∷ [] }

abbrev packed : DayTime → Option AnyMessage
packed t = some (record { type_url = day_time_url; value = t.hour ∷ t.minute ∷ [] })

abbrev admits : Event → Outcome (Option String)
admits e = done none

abbrev clocks : World
clocks = world_with (("tkd.common.v1.DayTime", 7 ∷ []) ∷ []) []

abbrev told : World
told = record clocks {
  calls =
      record {
        client = 0;
        call = publish_call (make_topic day_time_url) false (8 ∷ 27 ∷ []);
        accepted = true;
      }
      ∷ [];
}

abbrev told_ends : Finished
told_ends = ended "tkd.common.v1.DayTime" day_time_any (told, none)

clock_receivers : receivers_of clocks.broker "tkd.common.v1.DayTime" ≡ 7 ∷ []
unfolding lookup
clock_receivers = refl

clocks-AllRoom : AllRoom clocks.chans (receivers_of clocks.broker "tkd.common.v1.DayTime")
clocks-AllRoom c h = rw clock_receivers (ground arith)

publish_command-handle_message_example :
    let env = env_for day_time_url in
    (blob : List ℕ) × (client : ℕ) × (told.calls
      ≡ []
        ++ record {
          client = client;
          call = publish_call (make_topic day_time_url) false blob;
          accepted = true;
        }
          ∷ [])
    × (w : World) × (handle_message env told (record { payload = blob; retained = false }) []
        ≡ done w)
    × ((c : ℕ)
        → history (w.chans c)
          ≡ []
            ++ replicate
                (count c (receivers_of clocks.broker "tkd.common.v1.DayTime"))
                (event_of day_time_any))
unfolding publish_command trim_prefix
publish_command-handle_message_example =
    publish_command-handle_message packed "tkd.common.v1.DayTime" admits (env_for day_time_url)
      clocks day_time_any told_ends [] (λ e. refl) (λ blob m. ground arith) refl refl refl
      (λ c h. refl) clocks-AllRoom

-- A template language of one word: the name of a function, which gets the argument.
abbrev one_word : Package
one_word = record {
  A = String;
  V = String;
  E = String;
  T = List String → Try String String;
  usable = λ name. if name == "my-greet" then false else true;
  parse = λ fns text. elim (lookup text fns) [
    | none ↦ thrown "function not defined"
    | some f ↦ returned f
  ];
  execute = λ f a. f (a ∷ []);
  to_value = λ a. a;
  export_value = λ v. v;
}

abbrev hello : Callable one_word
hello args = returned "Hello"

abbrev moin : Callable one_word
moin args = returned "Moin"

abbrev twice_greet : List (String × Callable one_word)
twice_greet = ("greet", hello) ∷ ("greet", moin) ∷ []

exec-register_all_example :
    let t = register_all one_word twice_greet (new_template one_word) in
    (all_usable one_word twice_greet ≡ true
      → (fns : List (String × (List String → Try String String))) × (exec one_word t "greet" "World"
          ≡ done (one_word.parse fns "greet" >>= λ tmp. one_word.execute tmp "World"))
        × ((name : String)
            → lookup name fns
              ≡ Option.map (template_function one_word) (last_of one_word name twice_greet none)))
    × (all_usable one_word twice_greet ≡ false
        → exec one_word t "greet" "World" ≡ panic invalid_function_name)
exec-register_all_example = exec-register_all one_word twice_greet "greet" "World"

-- The callback that was registered last is the one that is called, and a name with a dash, which is
-- taken first, lets exec panic afterwards.
last_greeting :
    exec one_word (register_all one_word twice_greet (new_template one_word)) "greet" "World"
    ≡ done (returned "Moin")
unfolding exec register_all lookup
last_greeting = refl

dashed :
    exec one_word
      (register_all one_word (("my-greet", hello) ∷ twice_greet) (new_template one_word))
      "greet"
      "World"
    ≡ panic invalid_function_name
unfolding exec register_all
dashed = refl

abbrev natives : Natives
natives = record {
  services = ignored;
  fetch_error = none;
  fs_object = 4;
  path_exports = 5;
  template_object = 6;
  timeutil_exports = 7;
}

abbrev imported : Registry
imported = record { lock = default_registry.lock; modules = registered natives }

imported-Reordered : Reordered natives imported.modules
unfolding lookup
imported-Reordered = record {
  one_each = (refl, (refl, (refl, (refl, (refl, (refl, (refl, tt)))))));
  alike = λ k. refl;
}

abbrev no_settings : Config
no_settings = record { type_server_url = ""; connect_services = [] }

new_engine-natives_example :
    (init_all (native_modules natives) default_registry ≡ done imported)
    × (reg' : Registry) × (o : Option Engine) × (new_engine "clock" no_settings [] imported
        ≡ done (reg', o))
    × ((o ≡ none) ↔ Refuses natives)
    × ((e : Engine)
        → o ≡ some e
        → (k : String) → require_native k e.instances ≡ native_object natives k)
unfolding new_engine
new_engine-natives_example =
    new_engine-natives natives "clock" no_settings [] imported imported-Reordered refl refl
