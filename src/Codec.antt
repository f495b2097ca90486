-- ===== src/Codec.antt =====
-- internal/codec/json.go: the JSON codec of the RPC server. Package protojson and json.Compact
-- enter as arguments; bytes are numbers.
pub mod Laws
use events_service.Base.{ℕ, List, [], ◌∷◌, ◌++◌, Bool, String, Option, none, some}

-- A value of type any: a proto.Message of the type M, or not.
pub data Any (M : Type 0) : Type 0 where
  proto_message : M → Any M
  not_proto : String → Any M

pub data CodecError : Type 0 where
  not_a_message : String → CodecError
  empty_payload : CodecError
  protojson_failed : CodecError
  compact_failed : CodecError

pub data Result (A : Type 0) : Type 0 where
  ok : A → Result A
  err : CodecError → Result A

-- protojson.MarshalOptions.Marshal, UnmarshalOptions.Unmarshal with the codec's resolver, and
-- json.Compact; Unmarshal writes into a message.
pub record Protojson (M : Type 0) : Type 0 where
  pub marshal_message : M → Option (List ℕ)
  pub unmarshal_message : List ℕ → M → Option M
  pub compact : List ℕ → Option (List ℕ)

abbrev pub or_error : {A : Type 0} → Option A → CodecError → Result A
or_error none e = err e
or_error (some a) e = ok a

infixl 5 ◌>>=◌
abbrev pub ◌>>=◌ : {A B : Type 0} → Result A → (A → Result B) → Result B
ok a >>= f = f a
err e >>= f = err e

module _ {M : Type 0} (pj : Protojson M) where
  -- JSON.Marshal
  unfoldable pub marshal : Any M → Result (List ℕ)
  marshal (not_proto t) = err (not_a_message t)
  marshal (proto_message m) = or_error (pj.marshal_message m) protojson_failed

  -- JSON.MarshalAppend; MarshalOptions.MarshalAppend appends what Marshal gives
  unfoldable pub marshal_append : List ℕ → Any M → Result (List ℕ)
  marshal_append dst (not_proto t) = err (not_a_message t)
  marshal_append dst (proto_message m) = do
    b ← or_error (pj.marshal_message m) protojson_failed
    ok (dst ++ b)

  -- JSON.Unmarshal
  unfoldable pub unmarshal : List ℕ → Any M → Result M
  unmarshal binary (not_proto t) = err (not_a_message t)
  unmarshal [] (proto_message m) = err empty_payload
  unmarshal (b ∷ bs) (proto_message m) = or_error (pj.unmarshal_message (b ∷ bs) m) protojson_failed

  -- JSON.MarshalStable
  unfoldable pub marshal_stable : Any M → Result (List ℕ)
  unfolding marshal
  marshal_stable message = do b ← marshal message; or_error (pj.compact b) compact_failed
