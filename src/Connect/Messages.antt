-- ===== src/Connect/Messages.antt =====
-- internal/automation/modules/connect/module.go, ObjectToProto and ConvertProtoMessage: between the
-- objects of scripts and messages, by way of JSON. encoding/json, protojson and dynamicpb enter by
-- what they give.
use events_service.Base.{ℕ, List, Option}
use events_service.Base.Try.{Try, ◌>>=◌, or_throw}

-- Values V of scripts, descriptors D and messages M. `message_json` writes with the names of the
-- fields as in the .proto file, and `json_message` reads into a new message of the descriptor.
pub record Messages (D M V : Type 0) : Type 0 where
  pub value_json : V → Option (List ℕ)
  pub json_message : D → List ℕ → Option M
  pub message_json : M → Option (List ℕ)
  pub json_value : List ℕ → Option V

pub data MessageError : Type 0 where
  no_json : MessageError
  no_message : List ℕ → MessageError
  no_value : MessageError

module _ {D M V : Type 0} (ms : Messages D M V) where
  -- ObjectToProto
  unfoldable pub object_to_proto : V → D → Try MessageError M
  object_to_proto obj d = do
    blob ← or_throw (ms.value_json obj) no_json
    or_throw (ms.json_message d blob) (no_message blob)

  -- ConvertProtoMessage
  unfoldable pub convert_proto_message : M → Try MessageError V
  convert_proto_message msg = do
    blob ← or_throw (ms.message_json msg) no_json
    or_throw (ms.json_value blob) no_value
