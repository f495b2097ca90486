-- ===== src/Connect.antt =====
-- internal/automation/modules/connect/module.go: service clients for scripts. Service discovery,
-- descriptors, protojson and net/http are other packages', and enter as arguments.
pub mod Endpoint
pub mod Headers
pub mod Messages
pub mod Client
pub mod Services
use Prim.Native.String.{[] as empty_text, ◌∷◌ as cons_text, ◌++◌ as append_text}
use Prim.Native.Char.{Char}
use mathlib.Core.List.{reverse}
use events_service.Base.{
  ℕ, zero, suc, List, [], ◌∷◌, ◌++◌, Bool, true, false, ◌||◌, String, Option, none, some,
  if◌then◌else◌, length, take, lookup, insert, ◌==◌, nat_eq, string_eq, code,
}
use events_service.FilePath.{split, join_parts}
use events_service.Text.{option_or}

-- strings.Join(parts[:n], ".")
unfoldable pub query : List String → ℕ → String
unfolding join_parts
query parts n = join_parts "." (take n parts)

-- The loop that appends the queries for idx = 1, …, n.
unfoldable pub queries_up_to : List String → ℕ → List String
unfolding query
queries_up_to parts zero = []
queries_up_to parts (suc n) = queries_up_to parts n ++ query parts (suc n) ∷ []

-- discovery.Discoverer.Discover: the addresses of the instances, or an error
abbrev pub Discoverer : Type 0
Discoverer = String → Option (List String)

abbrev pub endpoint : String → String → String → String
endpoint address service method =
    append_text "http://"
      (append_text address (append_text "/" (append_text service (append_text "/" method))))

-- The loop over the queries: errors and empty answers are passed over.
unfoldable pub first_instance : Discoverer → List String → Option String
first_instance disc [] = none
first_instance disc (q ∷ qs) =
    let rest = first_instance disc qs in
    elim (disc q) [
      | none ↦ rest
      | some res ↦ elim res [ [] ↦ rest | address ∷ more ↦ some address ]
    ]

abbrev pub map_endpoint : Option String → String → String → Option String
map_endpoint none service method = none
map_endpoint (some address) service method = some (endpoint address service method)

-- client.resolveEndpoint
unfoldable pub resolve_endpoint : Discoverer → String → String → Option String
unfolding first_instance queries_up_to split
resolve_endpoint disc service method =
    let parts = split b'.' service in
    map_endpoint (first_instance disc (reverse (queries_up_to parts (length parts)))) service method

-- http.Header, by its canonical keys
abbrev pub Header : Type 0
Header = List (String × List String)

-- Header.Set and Header.Add; `canonical` is http.CanonicalHeaderKey
unfoldable pub set_header : (String → String) → Header → String → String → Header
unfolding insert
set_header canonical h key v = insert (canonical key) (v ∷ []) h

unfoldable pub add_header : (String → String) → Header → String → String → Header
unfolding insert lookup
add_header canonical h key v =
    insert (canonical key) (option_or (lookup (canonical key) h) [] ++ v ∷ []) h

-- A value in the `headers` object of a script: a text, an array whose entries are texts or not,
-- or something else.
pub data HeaderValue : Type 0 where
  text : String → HeaderValue
  array : List (Option String) → HeaderValue
  unsupported : HeaderValue

-- What a script passes as options: none, `headers` of a type that is not supported or missing, or
-- an object.
pub data Options : Type 0 where
  no_options : Options
  no_headers : Options
  headers : List (String × HeaderValue) → Options

unfoldable pub set_all : (String → String) → List (String × String) → Header → Header
unfolding set_header
set_all canonical [] h = h
set_all canonical ((k, v) ∷ rest) h = set_all canonical rest (set_header canonical h k v)

abbrev add_element : (String → String) → Header → String → Option String → Header
add_element canonical h key none = h
add_element canonical h key (some s) = add_header canonical h key s

unfoldable pub add_elements : (String → String) → Header → String → List (Option String) → Header
unfolding add_header
add_elements canonical h key [] = h
add_elements canonical h key (el ∷ els) =
    add_elements canonical (add_element canonical h key el) key els

unfoldable pub add_value : (String → String) → Header → String → HeaderValue → Header
unfolding add_elements
add_value canonical h key (text s) = add_header canonical h key s
add_value canonical h key (array els) = add_elements canonical h key els
add_value canonical h key unsupported = h

unfoldable pub add_all : (String → String) → List (String × HeaderValue) → Header → Header
unfolding add_value
add_all canonical [] h = h
add_all canonical ((k, v) ∷ rest) h = add_all canonical rest (add_value canonical h k v)

-- The request's header in client.do: JSON, then the configured headers, then those of the script.
unfoldable pub base_header : (String → String) → List (String × String) → Header
unfolding set_all
base_header canonical configured = set_all canonical configured (
    set_header canonical (set_header canonical [] "Content-Type" "application/json") "Accept"
      "application/json")

unfoldable pub request_header : (String → String) → List (String × String) → Options → Header
unfolding base_header add_all
request_header canonical configured no_options = base_header canonical configured
request_header canonical configured no_headers = base_header canonical configured
request_header canonical configured (headers hs) =
    add_all canonical hs (base_header canonical configured)
