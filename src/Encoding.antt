-- ===== src/Encoding.antt =====
-- internal/automation/modules/encoding: TextDecoder and TextEncoder for scripts, with the errors of
-- internal/automation/common/error.go. Texts of Go are their bytes. The encodings, transformers and
-- the script engine are other packages'.
pub mod Labels
pub mod Streams
use Prim.Native.String.{◌++◌ as append_text}
use events_service.Base.{
  Outcome, done, panic, blocked, ℕ, List, [], ◌∷◌, ◌++◌, Bool, true, false, String, Option, none,
  some, contains, if◌then◌else◌, ◌==◌, string_eq,
}
use events_service.Base.Try.{Try, returned, thrown, ◌>>=◌, or_throw}
use events_service.Text.{option_or}
use events_service.Values.{Value, ValueError, export_array_buffer}
use events_service.Values.{Result as Exports, ok as exported_bytes, err as refused_value}

-- common.Error
pub record ScriptError : Type 0 where
  pub name : String
  pub message : String

-- NewError
abbrev pub new_error : String → String → ScriptError
new_error name message = record { name = name; message = message }

-- Error.Error
unfoldable pub error_text : ScriptError → String
error_text e = append_text e.name (append_text ": " e.message)

abbrev pub range_error : String
range_error = "RangeError"

abbrev pub type_error : String
type_error = "TypeError"

-- What these functions return or throw: a common.Error, or an error of errors.New or another
-- package.
pub data Failure : Type 0 where
  script_error : ScriptError → Failure
  encoding_not_set : Failure
  value_error : ValueError → Failure
  not_defined : String → Failure
  not_options : Failure

pub data Endianness : Type 0 where
  little_endian : Endianness
  big_endian : Endianness

-- unicode.BOMPolicy
pub data BomPolicy : Type 0 where
  ignore_policy : BomPolicy
  use_bom : BomPolicy

-- encoding.Encoding, as far as the program picks one
pub data Encoding : Type 0 where
  utf8 : Encoding
  utf16 : Endianness → BomPolicy → Encoding

-- transform.Transformer with its state T. `transform_string` gives the text, or the error's text.
pub record Transforms (T : Type 0) : Type 0 where
  pub new_decoder : Encoding → T
  pub bom_override : T → T
  pub transform_string : T → List ℕ → T × Try String (List ℕ)
  pub encode_bytes : Encoding → List ℕ → Try String (List ℕ)

pub record TextDecoder (T : Type 0) : Type 0 where
  pub encoding : String
  pub fatal : Bool
  pub ignore_bom : Bool
  pub decoder : Option Encoding
  pub transform : Option T

pub record TextDecoderOptions : Type 0 where
  pub fatal : Bool
  pub ignore_bom : Bool

abbrev pub utf8_labels : List String
utf8_labels =
    "" ∷ "unicode-1-1-utf-8" ∷ "unicode11utf8" ∷ "unicode20utf8" ∷ "utf-8" ∷ "utf8"
    ∷ "x-unicode20utf8" ∷ []

abbrev pub utf8_format : String
utf8_format = "utf-8"

abbrev pub utf16le_format : String
utf16le_format = "utf-16le"

abbrev pub utf16be_format : String
utf16be_format = "utf-16be"

abbrev pub bom_policy : Bool → BomPolicy
bom_policy ignore_bom = if ignore_bom then ignore_policy else use_bom

-- The switch of NewTextDecoder: the name of the encoding and the decoder. `key` is the label in
-- lower case without the space around it.
unfoldable pub pick_encoding : String → String → Bool → Option (String × Encoding)
pick_encoding key label ignore_bom =
    if contains key utf8_labels
    then some (utf8_format, utf8)
    else if key == utf16le_format
    then some (label, utf16 little_endian (bom_policy ignore_bom))
    else if key == utf16be_format
    then some (label, utf16 big_endian (bom_policy ignore_bom))
    else none

abbrev pub unsupported : String → Failure
unsupported label =
    script_error (new_error range_error (append_text "unsupported encoding: " label))

abbrev pub text_decoder : {T : Type 0} → TextDecoderOptions → String × Encoding → TextDecoder T
text_decoder options (name, decoder) = record {
  encoding = name;
  fatal = options.fatal;
  ignore_bom = options.ignore_bom;
  decoder = some decoder;
  transform = none;
}

-- NewTextDecoder; `normal` is strings.TrimSpace after strings.ToLower
unfoldable pub new_text_decoder :
    {T : Type 0} → (String → String) → String → TextDecoderOptions → Try Failure (TextDecoder T)
unfolding pick_encoding
new_text_decoder normal label options = do
  picked ← or_throw (pick_encoding (normal label) label options.ignore_bom) (unsupported label)
  returned (text_decoder options picked)

-- The error of Decode and Encode.
abbrev pub type_failure : String → Try String (List ℕ) → Try Failure (List ℕ)
type_failure what (returned text) = returned text
type_failure what (thrown reason) =
    thrown (script_error (new_error type_error (append_text what reason)))

module _ {T : Type 0} (tr : Transforms T) where
  -- The transformer that Decode makes.
  unfoldable pub transformer : Bool → Encoding → T
  transformer ignore_bom d =
      if ignore_bom then tr.new_decoder d else tr.bom_override (tr.new_decoder d)

  -- TextDecoder.Decode
  unfoldable pub decode : TextDecoder T → List ℕ → Bool → TextDecoder T × Try Failure (List ℕ)
  unfolding transformer
  decode td buffer stream = elim td.decoder [
    | none ↦ (td, thrown encoding_not_set)
    | some d ↦
        let fresh = transformer td.ignore_bom d in
        let (t, text) = tr.transform_string (option_or td.transform fresh) buffer in
        if stream
        then (record td { transform = some t }, type_failure "unable to decode text; reason: " text)
        else (
          record td { transform = none },
          type_failure "unable to decode text; reason: " (tr.transform_string fresh buffer).1,
        )
  ]

  abbrev pub decode_exported :
      TextDecoder T → Exports (List ℕ) → Bool → TextDecoder T × Try Failure (List ℕ)
  decode_exported td (refused_value e) stream = (td, thrown (value_error e))
  decode_exported td (exported_bytes buffer) stream = decode td buffer stream

  -- The method `decode` of the script's object.
  unfoldable pub decode_method :
      TextDecoder T → Value → Bool → Outcome (TextDecoder T × Try Failure (List ℕ))
  unfolding decode export_array_buffer
  decode_method td v stream = elim (export_array_buffer v) [
    | done exported ↦ done (decode_exported td exported stream)
    | panic fault ↦ panic fault
    | blocked ↦ blocked
  ]

  -- TextEncoder.Encode, for the encoder of the struct if there is one
  unfoldable pub encode : Option Encoding → List ℕ → Try Failure (List ℕ)
  encode none text = thrown encoding_not_set
  encode (some e) text = type_failure "unable to encode text; reason: " (tr.encode_bytes e text)

-- NewTextEncoder
pub record TextEncoder : Type 0 where
  pub encoding : String
  pub encoder : Option Encoding

abbrev pub new_text_encoder : TextEncoder
new_text_encoder = record { encoding = utf8_format; encoder = some utf8 }

-- What a read-only property of a script's object holds.
pub data Property : Type 0 where
  method : Property
  text : String → Property
  flag : Bool → Property

-- SetReadOnlyPropertyOf for one property after the other; the first one that the engine does not
-- define is thrown.
unfoldable pub define_all :
    (String → Bool) → List (String × Property) → Try Failure (List (String × Property))
define_all defines [] = returned []
define_all defines ((name, p) ∷ ps) = do
  _ ← or_throw (if defines name then some tt else none) (not_defined name)
  rest ← define_all defines ps
  returned ((name, p) ∷ rest)

-- newTextDecoderObject and newTextEncoderObject
unfoldable pub text_decoder_object :
    {T : Type 0} → (String → Bool) → TextDecoder T → Try Failure (List (String × Property))
unfolding define_all
text_decoder_object defines td = define_all defines (
    ("decode", method)
    ∷ ("encoding", text td.encoding)
    ∷ ("fatal", flag td.fatal)
    ∷ ("ignoreBOM", flag td.ignore_bom)
    ∷ [])

unfoldable pub text_encoder_object :
    (String → Bool) → TextEncoder → Try Failure (List (String × Property))
unfolding define_all
text_encoder_object defines te =
    define_all defines (("encode", method) ∷ ("encoding", text te.encoding) ∷ [])

abbrev pub no_label : String → Failure
no_label reason = script_error (
    new_error range_error
      (append_text "unable to extract label from the first argument; reason: " reason))

-- The constructor TextDecoder of scripts, from what ExportTo makes of its two arguments.
unfoldable pub construct_text_decoder :
    {T : Type 0}
    → (String → String)
    → Try String String
    → Option TextDecoderOptions
    → Try Failure (TextDecoder T)
unfolding new_text_decoder
construct_text_decoder normal (thrown reason) options = thrown (no_label reason)
construct_text_decoder normal (returned label) none = thrown not_options
construct_text_decoder normal (returned label) (some options) =
    new_text_decoder normal label options
