-- ===== src/Codec/Laws.antt =====
-- What the codec writes it reads.
use events_service.Base.{ℕ, List, [], some, ◌≡◌, ◌≢◌, arith}
use events_service.Codec.{proto_message, ok, Protojson, marshal, marshal_stable, unmarshal, ◌>>=◌}

module _ {M : Type 0} (pj : Protojson M) (m blank : M) (b : List ℕ) where
  -- If protojson reads back into a blank message what it writes for a message, also after
  -- json.Compact, and writes no empty text, then so does the codec: what Marshal, or MarshalStable,
  -- gives for a message, Unmarshal turns into that message.
  pub unmarshal-marshal :
      (c : List ℕ)
      → pj.unmarshal_message b blank ≡ some m
      → b ≢ []
      → pj.compact b ≡ some c
      → pj.unmarshal_message c blank ≡ some m
      → c ≢ []
      → marshal pj (proto_message m) ≡ ok b
      → ((marshal pj (proto_message m) >>= λ text. unmarshal pj text (proto_message blank)) ≡ ok m)
        × ((marshal_stable pj (proto_message m) >>= λ text. unmarshal pj text (proto_message blank))
            ≡ ok m)
  unfolding marshal_stable unmarshal
  unmarshal-marshal c reads full compacts reads' full' e = ground arith
