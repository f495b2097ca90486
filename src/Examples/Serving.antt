-- ===== src/Examples/Serving.antt =====
-- The service's loops and handlers at concrete inputs.
use events_service.Base.{
  ℕ, [], ◌∷◌, ◌+◌, String, some, done, ◌≡◌, refl, arith, nat_eq, string_eq, count, ◌==◌,
  if◌then◌else◌,
}
use events_service.Broker.{World, receivers_of}
use events_service.Service.{fake_receive, receive_loop, subscribe_once}
use events_service.Service.Streams.{subscribe_each, receive_loop-subscribe_each}
use events_service.Examples.Fixtures.{order, nobody}

receive_loop-subscribe_each_example :
    (w' : World) × (receive_loop fake_receive 3
        (subscribe_once (order ∷ "vet.Call" ∷ []))
        nobody
        7
        []
      ≡ done (some w'))
    × (subscribe_each nobody 7 (order ∷ "vet.Call" ∷ []) [] ≡ done w')
    × ((url : String) (d : ℕ)
        → count d (receivers_of w'.broker url)
          ≡ count d (receivers_of nobody.broker url)
            + (if 7 == d then count url (order ∷ "vet.Call" ∷ []) else 0))
receive_loop-subscribe_each_example =
    receive_loop-subscribe_each (order ∷ "vet.Call" ∷ []) 3 nobody 7 [] (omega arith) refl
      (omega arith)
