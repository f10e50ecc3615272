-- ===== src/Protocol/Laws.antt =====
-- protocol/message.go: what the program relies on encoding/json for, and messages that decode as
-- they were encoded.
use kupool.Common.{Text, Bytes, IsAscii, ℕ, ◌^◌, ◌<◌, ◌≡◌, true, false, none, some}
use kupool.Protocol.{
  Codec, Request, Response, AuthorizeParams, JobParams, SubmitParams, method_authorize,
  method_submit, method_job,
}

-- A Go int.
abbrev pub IsInt : ℕ → Type 0
IsInt n = n < 2 ^ 64

abbrev pub request : ℕ → Text → Bytes → Request
request id method params = record { id = some id; method = method; params = some params }

-- What `json.Unmarshal` documents of the output of `json.Marshal`: a number or a text comes back,
-- a raw message comes back as it was, `null` leaves a number zero and a pointer nil, and a key that
-- the type does not have is skipped.
pub record IsFaithful (codec : Codec) : Type 0 where
  pub authorize :
      (p : AuthorizeParams)
      → IsAscii p.username
      → codec.decode_authorize (some (codec.encode_authorize p)) ≡ some p
  pub submit :
      (p : SubmitParams)
      → IsInt p.job_id
      → IsAscii p.client_nonce
      → IsAscii p.result
      → codec.decode_submit (some (codec.encode_submit p)) ≡ some p
  pub job :
      (p : JobParams)
      → IsInt p.job_id
      → IsAscii p.server_nonce
      → codec.decode_job (some (codec.encode_job p)) ≡ some p
  pub authorize_request :
      (id : ℕ) (p : AuthorizeParams)
      → IsInt id
      → let r : Request = request id method_authorize (codec.encode_authorize p) in
        codec.decode_request (codec.encode_request r) ≡ some r
  pub submit_request :
      (id : ℕ) (p : SubmitParams)
      → IsInt id
      → let r : Request = request id method_submit (codec.encode_submit p) in
        codec.decode_request (codec.encode_request r) ≡ some r
  pub broadcast_request :
      (p : JobParams)
      → codec.decode_request (codec.encode_broadcast p)
        ≡ some (record { id = none; method = method_job; params = some (codec.encode_job p) })
  pub broadcast_response :
      (p : JobParams)
      → codec.decode_response (codec.encode_broadcast p)
        ≡ some (record { id = 0; result = false; error = none })
  pub success_response :
      (id : ℕ)
      → IsInt id
      → let r : Response = record { id = id; result = true; error = none } in
        codec.decode_response (codec.encode_response r) ≡ some r
