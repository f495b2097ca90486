-- ===== src/Examples/Connecting.antt =====
-- Clients at concrete inputs.
use events_service.Base.{
  ℕ, ◌≤◌, ◌<◌, List, [], ◌∷◌, String, none, some, ◌≡◌, refl, length, if◌then◌else◌, ◌==◌, string_eq,
}
use events_service.FilePath.{split}
use events_service.Connect.{Discoverer, query, endpoint, resolve_endpoint}
use events_service.Connect.Endpoint.{Unresolved, resolve_endpoint-longest}

-- Discovery knows the service by its first two parts.
abbrev discover : Discoverer
discover q = if q == "tkd.calendar" then some ("10.0.0.1" ∷ "10.0.0.2" ∷ []) else none

abbrev service : String
service = "tkd.calendar.v1"

abbrev found : String
found = endpoint "10.0.0.1" service "List"

resolve_endpoint-longest_example :
    (k : ℕ) × (address : String) × (more : List String) × (1 ≤ k)
    × (k ≤ length (split b'.' service))
    × (discover (query (split b'.' service) k) ≡ some (address ∷ more))
    × ((j : ℕ)
        → k < j
        → j ≤ length (split b'.' service)
        → Unresolved discover (query (split b'.' service) j))
    × (found ≡ endpoint address service "List")
unfolding resolve_endpoint
resolve_endpoint-longest_example = resolve_endpoint-longest discover service "List" found refl
