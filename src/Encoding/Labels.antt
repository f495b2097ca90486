-- ===== src/Encoding/Labels.antt =====
-- internal/automation/modules/encoding/text_decoder.go: which labels NewTextDecoder takes, and what
-- the script's object shows of them.
use events_service.Base.{
  List, [], ◌∷◌, ◌++◌, true, false, String, contains, ◌||◌, if◌then◌else◌, ◌==◌, string_eq, ◌≡◌,
  refl, ◌∙◌, arith, ◌⊎◌, inl, inr, Bool-cases, eq_iff,
}
use events_service.Base.Try.{returned, thrown}
use events_service.Encoding.{
  TextDecoder, text_decoder, utf8, utf16, little_endian, big_endian, bom_policy, TextDecoderOptions,
  utf8_labels, utf8_format, utf16le_format, utf16be_format, unsupported, new_text_decoder,
}

-- The labels that are taken, once they are in lower case without space around them.
abbrev pub labels : List String
labels = utf8_labels ++ utf16le_format ∷ utf16be_format ∷ []

contains-append :
    (a : String) (xs ys : List String) → contains a (xs ++ ys) ≡ contains a xs || contains a ys
contains-append a [] ys = refl
contains-append a (x ∷ xs) ys = ground (arith, contains-append a xs ys)

eq_sym : (x y : String) → x == y ≡ y == x
eq_sym x y = ground (arith, eq_iff x y, eq_iff y x)

-- A label is one of those of UTF-8, or that of one of the two orders of UTF-16, or none of these.
contains-labels :
    (key : String)
    → contains key labels
      ≡ contains key utf8_labels || (key == utf16le_format || key == utf16be_format)
contains-labels key =
    contains-append key utf8_labels (utf16le_format ∷ utf16be_format ∷ [])
    ∙ rw (eq_sym key utf16le_format, eq_sym key utf16be_format) (ground arith)

-- NewTextDecoder takes a label exactly if, in lower case and without the space around it, it is one
-- of the supported ones, and else returns a RangeError that names the label. The decoder shows the
-- options that it was given; as its encoding it shows "utf-8" for the names of UTF-8, and for UTF-16
-- the label letter for letter as the script wrote it, with its capitals and its space.
pub new_text_decoder-labels :
    {T : Type 0} (normal : String → String) (label : String) (options : TextDecoderOptions)
    → ((contains (normal label) labels ≡ false)
        × (new_text_decoder {T = T} normal label options ≡ thrown (unsupported label)))
      ⊎ ((td : TextDecoder T) × (contains (normal label) labels ≡ true)
          × (new_text_decoder normal label options ≡ returned td)
          × (td.encoding ≡ (if contains (normal label) utf8_labels then utf8_format else label))
          × (td.fatal ≡ options.fatal)
          × (td.ignore_bom ≡ options.ignore_bom))
unfolding new_text_decoder
new_text_decoder-labels normal label options =
    let key = normal label in
    elim (Bool-cases (contains key utf8_labels)) [
      | inl known ↦ inr (
        text_decoder options (utf8_format, utf8),
        contains-labels key ∙ rw known refl,
        rw known refl,
        rw known refl,
        refl,
        refl,
      )
      | inr unknown ↦ elim (Bool-cases (key == utf16le_format)) [
        | inl little ↦ inr (
          text_decoder options (label, utf16 little_endian (bom_policy options.ignore_bom)),
          contains-labels key ∙ rw (unknown, little) refl,
          rw (unknown, little) refl,
          rw unknown refl,
          refl,
          refl,
        )
        | inr not_little ↦ elim (Bool-cases (key == utf16be_format)) [
          | inl big ↦ inr (
            text_decoder options (label, utf16 big_endian (bom_policy options.ignore_bom)),
            contains-labels key ∙ rw (unknown, not_little, big) refl,
            rw (unknown, not_little, big) refl,
            rw unknown refl,
            refl,
            refl,
          )
          | inr not_big ↦ inl (
            contains-labels key ∙ rw (unknown, not_little, not_big) refl,
            rw (unknown, not_little, not_big) refl,
          )
        ]
      ]
    ]
