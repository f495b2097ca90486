-- ===== src/Encoding/Streams.antt =====
-- internal/automation/modules/encoding/text_decoder.go, Decode over several chunks.
use events_service.Base.{ℕ, List, [], ◌∷◌, map, Bool, true, false, none, some, ◌≡◌, refl, ◌∙◌, ap}
use events_service.Base.Try.{Try}
use events_service.Text.{option_or}
use events_service.Encoding.{
  TextDecoder, Encoding, Transforms, Failure, transformer, type_failure, decode,
}

-- What transform.String documents: it resets the transformer before it begins.
abbrev pub Resets : {T : Type 0} → Transforms T → Type 0
Resets {T} tr =
    (t : T) (a b : List ℕ)
    → (tr.transform_string (tr.transform_string t a).0 b).1 ≡ (tr.transform_string t b).1

module _ {T : Type 0} (tr : Transforms T) where
  -- What a script gets for the chunks that it hands to `decode`, each with its flag `stream`.
  unfoldable pub decode_all : TextDecoder T → List (List ℕ × Bool) → List (Try Failure (List ℕ))
  decode_all td [] = []
  decode_all td ((chunk, stream) ∷ chunks) =
      let (td', text) = decode tr td chunk stream in text ∷ decode_all td' chunks

  -- What one chunk gives by itself.
  abbrev pub decode_alone : Bool → Encoding → List ℕ × Bool → Try Failure (List ℕ)
  decode_alone ignore_bom d (chunk, stream) =
      type_failure "unable to decode text; reason: "
        (tr.transform_string (transformer tr ignore_bom d) chunk).1

  -- The transformer that is kept from an earlier chunk, if one is, gives what a new one gives.
  abbrev LikeFresh : TextDecoder T → Encoding → Type 0
  LikeFresh td d =
      (b : List ℕ)
      → (tr.transform_string (option_or td.transform (transformer tr td.ignore_bom d)) b).1
        ≡ (tr.transform_string (transformer tr td.ignore_bom d) b).1

  -- Decode with a decoder, when the kept transformer gives what a new one gives.
  decode-LikeFresh :
      (td : TextDecoder T) (d : Encoding) (chunk : List ℕ) (stream : Bool)
      → Resets tr
      → td.decoder ≡ some d
      → LikeFresh td d
      → ((decode tr td chunk stream).1 ≡ decode_alone td.ignore_bom d (chunk, stream))
        × ((decode tr td chunk stream).0.decoder ≡ some d)
        × ((decode tr td chunk stream).0.ignore_bom ≡ td.ignore_bom)
        × LikeFresh (decode tr td chunk stream).0 d
  unfolding decode
  decode-LikeFresh td d chunk true resets has like = rw has (
    ap (type_failure "unable to decode text; reason: ") (like chunk),
    refl,
    refl,
    λ b. resets (option_or td.transform (transformer tr td.ignore_bom d)) chunk b ∙ like b,
  )
  decode-LikeFresh td d chunk false resets has like = rw has (refl, refl, refl, λ b. refl)

  decode_all-LikeFresh :
      (td : TextDecoder T) (d : Encoding) (chunks : List (List ℕ × Bool))
      → Resets tr
      → td.decoder ≡ some d
      → LikeFresh td d
      → decode_all td chunks ≡ map (decode_alone td.ignore_bom d) chunks
  unfolding decode_all
  decode_all-LikeFresh td d [] resets has like = refl
  decode_all-LikeFresh td d ((chunk, stream) ∷ chunks) resets has like =
      let (text, has', bom, like') = decode-LikeFresh td d chunk stream resets has like in
      let rest = decode_all-LikeFresh (decode tr td chunk stream).0 d chunks resets has' like' in
      ap (λ t. t ∷ decode_all (decode tr td chunk stream).0 chunks) text
      ∙ ap (λ ts. decode_alone td.ignore_bom d (chunk, stream) ∷ ts)
          (rest ∙ ap (λ i. map (decode_alone i d) chunks) bom)

  -- A stream of chunks is decoded chunk by chunk, as if each stood alone, whatever the flags
  -- `stream` and `fatal` are: nothing of one chunk, such as the first bytes of a character, is
  -- carried over to the next. (The decoder is as NewTextDecoder makes it, with an encoding and no
  -- transformer, and transform.String resets the transformer, as documented.)
  pub decode_all-alone :
      (td : TextDecoder T) (d : Encoding) (chunks : List (List ℕ × Bool))
      → Resets tr
      → td.decoder ≡ some d
      → td.transform ≡ none
      → decode_all td chunks ≡ map (decode_alone td.ignore_bom d) chunks
  decode_all-alone td d chunks resets has new =
      decode_all-LikeFresh td d chunks resets has (λ b. rw new refl)
