-- ===== src/Examples/Plain.antt =====
-- An encoding of messages that comes back.
use kupool.Common.{
  length, take, drop, take-append, drop-append, Bytes, ℕ, zero, suc, ◌≡◌, refl, true, false, Option,
  none, some, [], ◌∷◌, ◌++◌,
}
use kupool.Protocol.{Codec, Request, Response, AuthorizeParams, JobParams, SubmitParams, method_job}
use kupool.Protocol.Laws.{IsFaithful}

abbrev id_of : ℕ → Option ℕ
id_of zero = none
id_of (suc n) = some n

abbrev id_code : Option ℕ → ℕ
id_code none = 0
id_code (some n) = suc n

abbrev params_code : Option Bytes → Bytes
params_code none = []
params_code (some b) = 1 ∷ b

abbrev params_of : Bytes → Option Bytes
params_of [] = none
params_of (b ∷ bs) = some bs

abbrev put_request : Request → Bytes
put_request r = 1 ∷ id_code r.id ∷ length r.method ∷ r.method ++ params_code r.params

abbrev get_request : Bytes → Option Request
get_request (t ∷ i ∷ n ∷ bs) =
    some (record { id = id_of i; method = take n bs; params = params_of (drop n bs) })
get_request (t ∷ i ∷ []) = none
get_request (t ∷ []) = none
get_request [] = none

abbrev pub put_response : Response → Bytes
put_response r = 0 ∷ r.id ∷ []

abbrev get_response : Bytes → Option Response
get_response (zero ∷ id ∷ bs) = some (record { id = id; result = true; error = none })
get_response bs = some (record { id = 0; result = false; error = none })

abbrev get_authorize : Option Bytes → Option AuthorizeParams
get_authorize none = none
get_authorize (some b) = some (record { username = b })

abbrev get_job : Option Bytes → Option JobParams
get_job none = none
get_job (some []) = none
get_job (some (j ∷ n)) = some (record { job_id = j; server_nonce = n })

abbrev put_submit : SubmitParams → Bytes
put_submit p = p.job_id ∷ length p.client_nonce ∷ p.client_nonce ++ p.result

abbrev get_submit : Option Bytes → Option SubmitParams
get_submit (some (j ∷ n ∷ bs)) =
    some (record { job_id = j; client_nonce = take n bs; result = drop n bs })
get_submit (some (j ∷ [])) = none
get_submit (some []) = none
get_submit none = none

abbrev put_job : JobParams → Bytes
put_job p = p.job_id ∷ p.server_nonce

abbrev pub plain : Codec
plain = record {
  encode_request = put_request;
  decode_request = get_request;
  encode_response = put_response;
  decode_response = get_response;
  encode_authorize = λ p. p.username;
  decode_authorize = get_authorize;
  encode_job = put_job;
  decode_job = get_job;
  encode_submit = put_submit;
  decode_submit = get_submit;
  encode_broadcast =
      λ p. put_request (record { id = none; method = method_job; params = some (put_job p) });
}

get_request-put_request :
    (i : Option ℕ) (method params : Bytes)
    → get_request (put_request (record { id = i; method = method; params = some params }))
      ≡ some (record { id = i; method = method; params = some params })
get_request-put_request none method params =
    rw (take-append method (1 ∷ params), drop-append method (1 ∷ params)) refl
get_request-put_request (some i) method params =
    rw (take-append method (1 ∷ params), drop-append method (1 ∷ params)) refl

pub plain-IsFaithful : IsFaithful plain
plain-IsFaithful = record {
  authorize = λ p h. refl;
  submit =
      λ p i h k. rw (take-append p.client_nonce p.result, drop-append p.client_nonce p.result) refl;
  job = λ p i h. refl;
  authorize_request = λ id p h. get_request-put_request (some id) _ _;
  submit_request = λ id p h. get_request-put_request (some id) _ _;
  broadcast_request = λ p. get_request-put_request none _ _;
  broadcast_response = λ p. refl;
  success_response = λ id h. refl;
}
