-- ===== src/Values.antt =====
-- internal/automation/common/goja.go and utils.go: values that scripts hand to the modules. A Go
-- string is its bytes.
pub mod Laws
use Prim.Native.String.{◌++◌ as append_text}
use events_service.Base.Try.{Try, returned, thrown}
use events_service.Base.{
  Outcome, done, panic, nil_pointer, ◌>>=◌, ℕ, List, [], ◌∷◌, Bool, true, false, ◌||◌, String,
  Option, none, some, ◌==◌, string_eq, if◌then◌else◌, insert,
}

-- What Export gives for a goja value, as the type switches tell it apart.
pub data Exported : Type 0 where
  text : List ℕ → Exported
  byte_slice : List ℕ → Exported
  reader : List ℕ → Exported
  array_buffer : List ℕ → Exported
  other : String → Exported

pub data ValueError : Type 0 where
  invalid_type : String → ValueError
  nullish_data : ValueError
  buffer_is_no_array_buffer : ValueError
  no_array_buffer : ValueError

pub data Result (A : Type 0) : Type 0 where
  ok : A → Result A
  err : ValueError → Result A

-- GetReader, by the bytes that the reader yields
unfoldable pub get_reader : Exported → Result (List ℕ)
get_reader (text s) = ok s
get_reader (byte_slice b) = ok b
get_reader (reader r) = ok r
get_reader (array_buffer b) = ok b
get_reader (other t) = err (invalid_type t)

-- ToBytes
unfoldable pub to_bytes : Exported → Result (List ℕ)
to_bytes (byte_slice b) = ok b
to_bytes (text s) = ok s
to_bytes (array_buffer b) = ok b
to_bytes (reader r) = err (invalid_type "io.Reader")
to_bytes (other t) = err (invalid_type t)

-- ToString, by the bytes of the string
unfoldable pub to_string : Exported → Result (List ℕ)
to_string (byte_slice b) = ok b
to_string (text s) = ok s
to_string (array_buffer b) = ok b
to_string (reader r) = err (invalid_type "io.Reader")
to_string (other t) = err (invalid_type t)

-- A goja value: undefined, null or nil; or an object by the global name of its constructor, what it
-- exports to, and what its property `buffer` exports to. A script can make objects without a
-- constructor or a `buffer`; Get gives nil for these.
pub record Object : Type 0 where
  pub constructor_name : Option String
  pub exported : Exported
  pub buffer : Option Exported

pub data Value : Type 0 where
  nullish : Value
  object : Object → Value

-- IsNullish
abbrev pub is_nullish : Value → Bool
is_nullish nullish = true
is_nullish (object o) = false

-- A method of what Get gives, which is called with no check for nil.
abbrev pub got : {A : Type 0} → Option A → Outcome A
got none = panic nil_pointer
got (some a) = done a

-- IsInstanceOf, on an object
unfoldable pub is_instance_of : Object → List String → Outcome Bool
is_instance_of o [] = done false
is_instance_of o (t ∷ ts) =
    let rest = is_instance_of o ts in
    got o.constructor_name >>= λ name. if name == t then done true else rest

abbrev pub typed_array_types : List String
typed_array_types =
    "Int8Array" ∷ "Uint8Array" ∷ "Uint8ClampedArray" ∷ "Int16Array" ∷ "Uint16Array" ∷ "Int32Array"
    ∷ "Uint32Array" ∷ "Float32Array" ∷ "Float64Array" ∷ "BigInt64Array" ∷ "BigUint64Array" ∷ []

-- IsTypedArray
unfoldable pub is_typed_array : Object → Outcome Bool
unfolding is_instance_of
is_typed_array o = is_instance_of o typed_array_types

unfoldable pub array_buffer_or : Exported → ValueError → Result (List ℕ)
array_buffer_or (array_buffer b) e = ok b
array_buffer_or (text s) e = err e
array_buffer_or (byte_slice b) e = err e
array_buffer_or (reader r) e = err e
array_buffer_or (other t) e = err e

-- ExportArrayBuffer
unfoldable pub export_array_buffer : Value → Outcome (Result (List ℕ))
unfolding is_typed_array array_buffer_or
export_array_buffer nullish = done (err nullish_data)
export_array_buffer (object o) = is_typed_array o >>= λ typed.
    if typed
    then (got o.buffer >>= λ b. done (array_buffer_or b buffer_is_no_array_buffer))
    else done (array_buffer_or o.exported no_array_buffer)

-- IsAsyncFunction
unfoldable pub is_async_function : Value → Outcome Bool
is_async_function nullish = done false
is_async_function (object o) = got o.constructor_name >>= λ name. done (name == "AsyncFunction")

-- An error of Go code: an exception of the script engine, or any other, by its text.
pub data GoError : Type 0 where
  exception : ℕ → GoError
  go_error : String → GoError

-- What is thrown into the script.
pub data Thrown : Type 0 where
  same_exception : ℕ → Thrown
  new_go_error : String → Thrown

-- Throw: an exception is not wrapped again
unfoldable pub throw : GoError → Thrown
throw (exception e) = same_exception e
throw (go_error message) = new_go_error message

-- A data property with its flags.
pub record DataProperty (V : Type 0) : Type 0 where
  pub value : V
  pub writable : Bool
  pub configurable : Bool
  pub enumerable : Bool

-- SetReadOnlyPropertyOf; `refuses` is the error of DefineDataProperty. The text names TextEncoder
-- whatever the object is.
unfoldable pub set_read_only_property_of :
    {V : Type 0}
    → (String → Option String)
    → List (String × DataProperty V)
    → String
    → V
    → Try String (List (String × DataProperty V))
unfolding insert
set_read_only_property_of {V} refuses obj name value = elim (refuses name) [
  | some reason ↦ thrown (
      append_text "unable to define " (
        append_text name
          (append_text " read-only property on TextEncoder object; reason: " reason)))
  | none ↦
      let p : DataProperty V = record {
        value = value;
        writable = false;
        configurable = false;
        enumerable = true;
      } in
      returned (insert name p obj)
]
