-- ===== src/Protocol.antt =====
-- protocol/message.go: the messages, and the JSON encoding as an interface.
pub mod Laws
use kupool.Common.{Text, Bytes, codes, ℕ, Bool, Option}

-- `ID *int`, `Params json.RawMessage`: both may be nil. A Go int is its 64-bit pattern.
pub record Request : Type 0 where
  pub id : Option ℕ
  pub method : Text
  pub params : Option Bytes

-- `Error *string`.
pub record Response : Type 0 where
  pub id : ℕ
  pub result : Bool
  pub error : Option Text

pub record AuthorizeParams : Type 0 where
  pub username : Text

pub record JobParams : Type 0 where
  pub job_id : ℕ
  pub server_nonce : Text

pub record SubmitParams : Type 0 where
  pub job_id : ℕ
  pub client_nonce : Text
  pub result : Text

-- `Encode` and `Decode` at each type that the program hands them. A decoder gives `none` for an
-- error; `decode_*` of params take the raw message, which is nil where the key was missing.
pub record Codec : Type 0 where
  pub encode_request : Request → Bytes
  pub decode_request : Bytes → Option Request
  pub encode_response : Response → Bytes
  pub decode_response : Bytes → Option Response
  pub encode_authorize : AuthorizeParams → Bytes
  pub decode_authorize : Option Bytes → Option AuthorizeParams
  pub encode_job : JobParams → Bytes
  pub decode_job : Option Bytes → Option JobParams
  pub encode_submit : SubmitParams → Bytes
  pub decode_submit : Option Bytes → Option SubmitParams
  pub encode_broadcast : JobParams → Bytes

abbrev pub method_authorize : Text
method_authorize = codes "authorize"

abbrev pub method_submit : Text
method_submit = codes "submit"

abbrev pub method_job : Text
method_job = codes "job"
