-- ===== src/Connect/Headers.antt =====
-- The headers of a client's request.
use mathlib.Core.List.{append_assoc, append-nil}
use events_service.Base.{
  List, [], ◌∷◌, ◌++◌, String, Option, none, some, ◌≡◌, sym, ◌∙◌, ap, arith, lookup, lookup-insert,
  ◌==◌, string_eq, eq_iff, if◌then◌else◌,
}
use events_service.Text.{option_or}
use events_service.Connect.{
  Header, HeaderValue, text, array, unsupported, Options, no_options, no_headers, headers,
  add_header, add_elements, add_value, add_all, base_header, request_header,
}

-- The values of a key in another header that only adds to those in this one.
abbrev pub Extends : Header → Header → Type 0
Extends h h' =
    (k : String) (vs : List String)
    → lookup k h ≡ some vs
    → (more : List String) × (lookup k h' ≡ some (vs ++ more))

Extends-refl : (h : Header) → Extends h h
Extends-refl h k vs e = ([], e ∙ ap some (sym (append-nil vs)))

Extends-trans : (h h' h'' : Header) → Extends h h' → Extends h' h'' → Extends h h''
Extends-trans h h' h'' f g k vs e =
    let (more, e') = f k vs e in
    let (more', e'') = g k (vs ++ more) e' in
    (more ++ more', e'' ∙ ap some (append_assoc vs more more'))

module _ (canonical : String → String) where
  add_header-Extends : (h : Header) (key v : String) → Extends h (add_header canonical h key v)
  unfolding add_header
  add_header-Extends h key v k vs e = (
    if canonical key == k then v ∷ [] else [],
    ground (
      arith,
      lookup-insert (canonical key) k (option_or (lookup (canonical key) h) [] ++ v ∷ []) h,
      eq_iff (canonical key) k,
      append-nil vs,
    ),
  )

  add_elements-Extends :
      (h : Header) (key : String) (els : List (Option String))
      → Extends h (add_elements canonical h key els)
  unfolding add_elements
  add_elements-Extends h key [] = Extends-refl h
  add_elements-Extends h key (none ∷ els) = add_elements-Extends h key els
  add_elements-Extends h key (some s ∷ els) =
      Extends-trans h _ _ (add_header-Extends h key s)
        (add_elements-Extends (add_header canonical h key s) key els)

  add_value-Extends :
      (h : Header) (key : String) (v : HeaderValue) → Extends h (add_value canonical h key v)
  unfolding add_value
  add_value-Extends h key (text s) = add_header-Extends h key s
  add_value-Extends h key (array els) = add_elements-Extends h key els
  add_value-Extends h key unsupported = Extends-refl h

  add_all-Extends :
      (hs : List (String × HeaderValue)) (h : Header) → Extends h (add_all canonical hs h)
  unfolding add_all
  add_all-Extends [] h = Extends-refl h
  add_all-Extends ((k, v) ∷ hs) h =
      Extends-trans h _ _ (add_value-Extends h k v) (add_all-Extends hs (add_value canonical h k v))

-- What a script passes as headers never replaces a header: each key keeps the values that the
-- client and its configuration gave it, in front of those of the script.
pub request_header-keeps :
    (canonical : String → String) (configured : List (String × String)) (options : Options)
    (k : String) (vs : List String)
    → lookup k (base_header canonical configured) ≡ some vs
    → (more : List String) × (lookup k (request_header canonical configured options)
        ≡ some (vs ++ more))
unfolding request_header
request_header-keeps canonical configured no_options k vs e = Extends-refl _ k vs e
request_header-keeps canonical configured no_headers k vs e = Extends-refl _ k vs e
request_header-keeps canonical configured (headers hs) k vs e =
    add_all-Extends canonical hs _ k vs e
