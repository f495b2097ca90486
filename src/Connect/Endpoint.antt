-- ===== src/Connect/Endpoint.antt =====
-- Which service instance a client calls.
use mathlib.Core.List.{reverse, reverse-append}
use events_service.Base.{
  ℕ, zero, suc, ◌≤◌, ◌<◌, List, [], ◌∷◌, String, Option, none, some, length, ◌≡◌, refl, ◌∙◌, ap,
  arith, ◌⊎◌, inl, inr,
}
use events_service.FilePath.{split}
use events_service.Connect.{
  Discoverer, query, queries_up_to, endpoint, first_instance, resolve_endpoint,
}

-- A query that leads to no instance: an error or an empty answer.
abbrev pub Unresolved : Discoverer → String → Type 0
Unresolved disc q = (disc q ≡ none) ⊎ (disc q ≡ some [])

-- The queries for the first n parts, longest first.
queries_down : List String → ℕ → List String
queries_down parts zero = []
queries_down parts (suc n) = query parts (suc n) ∷ queries_down parts n

reverse-queries_up_to :
    (parts : List String) (n : ℕ) → reverse (queries_up_to parts n) ≡ queries_down parts n
unfolding queries_up_to queries_down
reverse-queries_up_to parts zero = refl
reverse-queries_up_to parts (suc n) =
    reverse-append (queries_up_to parts n) (query parts (suc n) ∷ [])
    ∙ ap (◌∷◌ (query parts (suc n))) (reverse-queries_up_to parts n)

-- What the first n parts of the service name lead to.
data Search (disc : Discoverer) (parts : List String) (n : ℕ) (r : Option String) : Type 0 where
  missed :
      ((j : ℕ) → 1 ≤ j → j ≤ n → Unresolved disc (query parts j)) → r ≡ none → Search disc parts n r
  hit :
      (k : ℕ) (address : String) (more : List String)
      → 1 ≤ k
      → k ≤ n
      → disc (query parts k) ≡ some (address ∷ more)
      → ((j : ℕ) → k < j → j ≤ n → Unresolved disc (query parts j))
      → r ≡ some address
      → Search disc parts n r

below_or_top : (j n : ℕ) → j ≤ suc n → (j ≤ n) ⊎ (j ≡ suc n)
below_or_top j n h = grind arith

Search-pass :
    (disc : Discoverer) (parts : List String) (n : ℕ) (r r' : Option String)
    → Unresolved disc (query parts (suc n))
    → r' ≡ r
    → Search disc parts n r
    → Search disc parts (suc n) r'
Search-pass disc parts n r r' u e (missed all none_found) =
    missed (λ j a b. elim (below_or_top j n b) [ inl le ↦ all j a le | inr top ↦ rw top u ])
      (e ∙ none_found)
Search-pass disc parts n r r' u e (hit k address more a b found longer is) =
    hit k address more a (omega arith) found
      (λ j c d. elim (below_or_top j n d) [ inl le ↦ longer j c le | inr top ↦ rw top u ]) (e ∙ is)

Search-step :
    (disc : Discoverer) (parts : List String) (n : ℕ) (x : Option (List String))
    → disc (query parts (suc n)) ≡ x
    → Search disc parts n (first_instance disc (queries_down parts n))
    → Search disc parts (suc n) (first_instance disc (queries_down parts (suc n)))
unfolding first_instance queries_down
Search-step disc parts n none e s = Search-pass disc parts n _ _ (inl e) (rw e) s
Search-step disc parts n (some []) e s = Search-pass disc parts n _ _ (inr e) (rw e) s
Search-step disc parts n (some (address ∷ more)) e s =
    hit (suc n) address more (omega arith) (omega arith) e (λ j c d. absurd (omega arith)) (rw e)

Search-down :
    (disc : Discoverer) (parts : List String) (n : ℕ)
    → Search disc parts n (first_instance disc (queries_down parts n))
unfolding first_instance queries_down
Search-down disc parts zero = missed (λ j a b. absurd (omega arith)) refl
Search-down disc parts (suc n) =
    Search-step disc parts n (disc (query parts (suc n))) refl (Search-down disc parts n)

first_instance-Search :
    (disc : Discoverer) (parts : List String) (n : ℕ)
    → Search disc parts n (first_instance disc (reverse (queries_up_to parts n)))
first_instance-Search disc parts n = rw (reverse-queries_up_to parts n) (Search-down disc parts n)

-- A client calls an instance that discovery gives for the first k parts of the service's name,
-- the first one of the answer, where no longer query has an instance.
pub resolve_endpoint-longest :
    (disc : Discoverer) (service method ep : String)
    → resolve_endpoint disc service method ≡ some ep
    → (k : ℕ) × (address : String) × (more : List String) × (1 ≤ k)
      × (k ≤ length (split b'.' service))
      × (disc (query (split b'.' service) k) ≡ some (address ∷ more))
      × ((j : ℕ)
          → k < j
          → j ≤ length (split b'.' service)
          → Unresolved disc (query (split b'.' service) j))
      × (ep ≡ endpoint address service method)
unfolding resolve_endpoint
resolve_endpoint-longest disc service method ep h =
    elim (first_instance-Search disc (split b'.' service) (length (split b'.' service))) [
      | missed all e ↦ absurd (ground arith)
      | hit k address more a b found longer e ↦
          (k, address, more, a, b, found, longer, ground arith)
    ]

-- resolveEndpoint finds no instance only if every query, from the whole name to its first part, has no instance.
pub resolve_endpoint-none :
    (disc : Discoverer) (service method : String) (j : ℕ)
    → resolve_endpoint disc service method ≡ none
    → 1 ≤ j
    → j ≤ length (split b'.' service)
    → Unresolved disc (query (split b'.' service) j)
unfolding resolve_endpoint
resolve_endpoint-none disc service method j h a b =
    elim (first_instance-Search disc (split b'.' service) (length (split b'.' service))) [
      | missed all e ↦ all j a b
      | hit k address more c d found longer e ↦ absurd (ground arith)
    ]
