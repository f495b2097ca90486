-- ===== src/Values/Laws.antt =====
-- Which values the conversions accept, and what they make of them.
use events_service.Base.{
  ℕ, List, [], ◌∷◌, true, String, ◌≡◌, refl, arith, contains, string_eq, eq_iff, if◌then◌else◌, ◌↔◌,
  done, panic, nil_pointer, some, none, Bool-cases, inl, inr,
}
use events_service.Values.{
  Exported, text, byte_slice, reader, array_buffer, other, array_buffer_or, ValueError, Object,
  object, buffer_is_no_array_buffer, no_array_buffer, ok, is_instance_of, is_typed_array,
  typed_array_types, export_array_buffer,
}

array_buffer_or_iff :
    (x : Exported) (e : ValueError) (b : List ℕ)
    → (array_buffer_or x e ≡ ok b) ↔ (x ≡ array_buffer b)
unfolding array_buffer_or
array_buffer_or_iff (text s) e b = ground arith
array_buffer_or_iff (byte_slice s) e b = ground arith
array_buffer_or_iff (reader s) e b = ground arith
array_buffer_or_iff (array_buffer s) e b = ground arith
array_buffer_or_iff (other t) e b = ground arith

pub is_instance_of-contains :
    (o : Object) (name : String) (ts : List String)
    → o.constructor_name ≡ some name
    → is_instance_of o ts ≡ done (contains name ts)
unfolding is_instance_of
is_instance_of-contains o name [] h = refl
is_instance_of-contains o name (t ∷ ts) h =
    ground (arith, eq_iff name t, eq_iff t name, is_instance_of-contains o name ts h)

-- ExportArrayBuffer panics on an object without a constructor, and on one whose constructor is that of a
-- typed array but that has no `buffer`. Of another object it gives all the bytes of the ArrayBuffer
-- that the property `buffer` exports to where the constructor's name is one of a typed array, and of
-- the ArrayBuffer that the object itself exports to otherwise, and succeeds in no other case.
pub export_array_buffer_iff :
    (o : Object) (name : String) (b : List ℕ)
    → (o.constructor_name ≡ none → export_array_buffer (object o) ≡ panic nil_pointer)
      × (o.constructor_name ≡ some name
          → contains name typed_array_types ≡ true
          → o.buffer ≡ none
          → export_array_buffer (object o) ≡ panic nil_pointer)
      × (o.constructor_name ≡ some name
          → (x : Exported)
          → (if contains name typed_array_types then o.buffer else some o.exported) ≡ some x
          → (export_array_buffer (object o) ≡ done (ok b)) ↔ (x ≡ array_buffer b))
unfolding export_array_buffer is_typed_array is_instance_of
export_array_buffer_iff o name b = (
  (λ h. rw h refl),
  (λ h typed missing. rw (is_instance_of-contains o name typed_array_types h, typed, missing) refl),
  λ h x is. elim (Bool-cases (contains name typed_array_types)) [
    | inl typed ↦
        let there : o.buffer ≡ some x = rw typed at is in
        rw (is_instance_of-contains o name typed_array_types h, typed, there)
          (ground (arith, array_buffer_or_iff x buffer_is_no_array_buffer b))
    | inr untyped ↦
        let there : some o.exported ≡ some x = rw untyped at is in
        rw (is_instance_of-contains o name typed_array_types h, untyped)
          (ground (arith, array_buffer_or_iff o.exported no_array_buffer b))
  ],
)
