-- ===== src/Examples/Decoding.antt =====
-- TextDecoder at concrete inputs.
use events_service.Base.{ℕ, suc, [], ◌∷◌, true, false, string_eq, ◌≡◌, refl}
use events_service.Base.Try.{returned, thrown}
use events_service.Encoding.{
  TextDecoderOptions, Transforms, utf8, text_decoder, utf8_format, transformer,
}
use events_service.Encoding.Streams.{Resets, decode_all, decode_all-alone}

-- A transformer that reads one byte at a time, and refuses an empty input. Its state is the number
-- of texts that it has decoded.
abbrev bytewise : Transforms ℕ
bytewise = record {
  new_decoder = λ e. 0;
  bom_override = λ t. t;
  transform_string =
      λ t b. (suc t, elim b [ [] ↦ thrown "short source" | c ∷ more ↦ returned (c ∷ more) ]);
  encode_bytes = λ e b. returned b;
}

bytewise-Resets : Resets bytewise
bytewise-Resets t a b = refl

abbrev fatal_options : TextDecoderOptions
fatal_options = record { fatal = true; ignore_bom = false }

decode_all-alone_example :
    decode_all bytewise
      (text_decoder fatal_options (utf8_format, utf8))
      ((195 ∷ [], true) ∷ (164 ∷ [], false) ∷ [])
    ≡ returned (195 ∷ []) ∷ returned (164 ∷ []) ∷ []
unfolding transformer
decode_all-alone_example =
    decode_all-alone bytewise (text_decoder fatal_options (utf8_format, utf8)) utf8
      ((195 ∷ [], true) ∷ (164 ∷ [], false) ∷ []) bytewise-Resets refl refl
