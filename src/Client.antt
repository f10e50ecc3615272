-- ===== src/Client.antt =====
-- app/client/client.go: the miner's event loop, one step for each case of its select.
pub mod Honest
pub mod Run
pub mod Program
pub mod Traffic
use kupool.Common.{
  ◌==◌, if◌then◌else◌, Text, text_beq, Bytes, hex_encode, pos, Time, second, minute, time_sub,
  ltb_duration, ℕ, ◌+◌, ◌%◌, ◌^◌, Bool, false, not, ◌&&◌, Option, none, some, List, [], ◌∷◌, ◌++◌,
}
use kupool.Frame.{Frame, op_binary}
use kupool.Protocol.{
  Codec, Request, Response, AuthorizeParams, JobParams, SubmitParams, method_authorize,
  method_submit, method_job,
}

-- The client, with the local `lastSubmit` of `Run` and the frames sent so far, the newest first.
pub record Client : Type 0 where
  pub username : Text
  pub job_id : ℕ
  pub server_nonce : Text
  pub next_id : ℕ
  pub last_submit : Time
  pub sent : List Frame

unfoldable pub new_client : Text → Client
new_client username = record {
  username = username;
  job_id = 0;
  server_nonce = [];
  next_id = 1;
  last_submit = 0;
  sent = [];
}

-- What one round of the loop draws: 12 random bytes, and the time behind `Send`.
pub record Turn : Type 0 where
  pub buf : Bytes
  pub sent_at : Time

-- A case of the select. The times are what `time.Since` reads.
pub data Input : Type 0 where
  done : Input
  read_error : Input
  received : Frame → Turn → Input
  second_tick : Time → Turn → Input
  minute_tick : Time → Turn → Input

-- `none` ends the loop.
abbrev pub running : Client → Option Client
running c = some c

-- 12 random bytes in hexadecimal.
abbrev pub rand_nonce : Bytes → Text
rand_nonce b = hex_encode b

module _ (codec : Codec) (sha256 : Bytes → Bytes) where
  abbrev pub compute_sha256_hex : Text → Text
  compute_sha256_hex s = hex_encode (sha256 s)

  -- `DialAndHandshake`: the frame that opens the connection.
  unfoldable pub authorize_frame : Text → Frame
  authorize_frame username =
      let p : AuthorizeParams = record { username = username } in
      record {
        op_code = op_binary;
        payload = codec.encode_request (record {
          id = some 1;
          method = method_authorize;
          params = some (codec.encode_authorize p);
        });
      }

  -- Lines 91 to 101, 112 to 122 and 129 to 139.
  unfoldable pub send_submit : Turn → Client → Client
  send_submit t c =
      let client_nonce = rand_nonce t.buf in
      let p : SubmitParams = record {
        job_id = c.job_id;
        client_nonce = client_nonce;
        result = compute_sha256_hex (c.server_nonce ++ client_nonce);
      } in
      let req : Request = record {
        id = some c.next_id;
        method = method_submit;
        params = some (codec.encode_submit p);
      } in
      record c {
        next_id = (c.next_id + 1) % 2 ^ 64;
        last_submit = t.sent_at;
        sent = record { op_code = op_binary; payload = codec.encode_request req } ∷ c.sent;
      }

  -- Line 71: the payload reads as a response with an id.
  abbrev is_response : Option Response → Bool
  is_response none = false
  is_response (some r) = not (r.id == 0)

  -- `_ = protocol.Decode(msg.Params, &p)` leaves zero values on an error.
  abbrev job_or_zero : Option JobParams → JobParams
  job_or_zero none = record { job_id = 0; server_nonce = [] }
  job_or_zero (some p) = p

  -- Lines 84 to 102.
  unfoldable pub on_job : JobParams → Turn → Client → Client
  on_job p t c = send_submit t (record c { job_id = p.job_id; server_nonce = p.server_nonce })

  abbrev on_request : Option Request → Turn → Client → Client
  on_request none t c = c
  on_request (some msg) t c =
      if text_beq msg.method method_job
      then on_job (job_or_zero (codec.decode_job msg.params)) t c
      else c

  -- Lines 61 to 102.
  unfoldable pub on_frame : Frame → Turn → Client → Client
  on_frame f t c =
      if f.op_code == op_binary
      then (if is_response (codec.decode_response f.payload)
          then c
          else on_request (codec.decode_request f.payload) t c)
      else c

  -- Lines 104 to 122.
  unfoldable pub on_second : Time → Turn → Client → Client
  on_second since t c =
      if text_beq c.server_nonce []
      then c
      else if not (c.last_submit == 0) && ltb_duration (time_sub since c.last_submit) (pos second)
      then c
      else send_submit t c

  -- Lines 124 to 140.
  unfoldable pub on_minute : Time → Turn → Client → Client
  on_minute since t c =
      if text_beq c.server_nonce []
      then c
      else if ltb_duration (time_sub since c.last_submit) (pos minute)
      then c
      else send_submit t c

  unfoldable pub step : Input → Client → Option Client
  step done c = none
  step read_error c = none
  step (received f t) c = running (on_frame f t c)
  step (second_tick since t) c = running (on_second since t c)
  step (minute_tick since t) c = running (on_minute since t c)
