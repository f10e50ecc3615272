-- ===== src/Examples/Toys.antt =====
-- The data of the tests: frames, a digest, an encoding, a coordinator with a session, servers.
use kupool.Common.{
  length, Map, Bytes, codes, pos, local, stamp_key, ℕ, ◌%◌, true, false, Option, none, some, List,
  [], ◌∷◌,
}
use kupool.Frame.{Frame, op_binary, op_ping}
use kupool.Protocol.{Codec, Request, SubmitParams, method_submit, method_authorize}
use kupool.State.{Session, JobRecord, Coordinator, SubmitEvent, World}
use kupool.Coordinator.{Draw}
use kupool.Submit.Replay.{Attempt}
use kupool.Memory.{MemoryStore, new_memory_store}
use kupool.Client.{Client}
use kupool.Channel.{Channel}
use kupool.TcpClient.{TcpClient}
use kupool.AppServer.{ShutdownStatus, Signal, event, stop_consume}
use kupool.TcpServer
use kupool.TcpServer.{TcpServer, new_server, Answer, accepted, enter, leave, shutdown}

-- A frame of each kind, and what a writer makes of them.
abbrev pub hello : Frame
hello = record { op_code = op_binary; payload = 104 ∷ 105 ∷ [] }

abbrev pub ping : Frame
ping = record { op_code = op_ping; payload = [] }

abbrev pub hello_stream : Bytes
hello_stream = 2 ∷ 2 ∷ 0 ∷ 0 ∷ 0 ∷ 104 ∷ 105 ∷ 9 ∷ []

-- A digest and an encoding for the examples.
abbrev pub digest : Bytes → Bytes
digest b = length b % 256 ∷ []

abbrev pub submission : SubmitParams
submission = record { job_id = 2; client_nonce = 97 ∷ []; result = codes "05" }

abbrev pub submit_request : Request
submit_request = record { id = some 7; method = method_submit; params = some (1 ∷ []) }

abbrev pub authorize_request : Request
authorize_request = record { id = some 1; method = method_authorize; params = some (1 ∷ []) }

abbrev decode : Bytes → Option Request
decode [] = some authorize_request
decode (b ∷ bs) = some submit_request

abbrev pub codec : Codec
codec = record {
  encode_request = λ r. [];
  decode_request = decode;
  encode_response = λ r. r.id ∷ [];
  decode_response = λ b. none;
  encode_authorize = λ p. p.username;
  decode_authorize = λ b. some (record { username = codes "admin" });
  encode_job = λ p. p.server_nonce;
  decode_job = λ b. none;
  encode_submit = λ p. p.client_nonce;
  decode_submit = λ b. some submission;
  encode_broadcast = λ p. p.job_id ∷ p.server_nonce;
}

-- The coordinator two jobs on, with a session that was told of job 2.
abbrev job_history : Map ℕ JobRecord
job_history = (1, record { nonce = 120 ∷ []; created_at = 5 }) ∷ []

abbrev pub worker : Session
worker = record {
  channel_id = codes "c1";
  username = codes "admin";
  latest_job_id = 2;
  latest_server_nonce = codes "abcd";
  last_submit_at = 0;
  used_nonces = [];
}

abbrev pub coordinator : Coordinator
coordinator = record {
  sessions = (codes "c1", worker) ∷ [];
  job_id = 2;
  server_nonce = codes "abcd";
  nonce_interval = pos 30;
  history_window = pos 0;
  history = job_history;
  expire_after = pos 0;
}

abbrev pub world : World MemoryStore
world = record { coord = coordinator; state = some new_memory_store; log = [] }

abbrev pub first_attempt : Attempt
first_attempt = record { params = submission; since = 10; now = 10 }

abbrev pub later_attempt : Attempt
later_attempt = record { params = submission; since = 5000000000; now = 5000000000 }

abbrev pub old_submission : SubmitParams
old_submission = record { job_id = 1; client_nonce = 98 ∷ []; result = codes "02" }

abbrev pub free_submission : SubmitParams
free_submission = record { job_id = 0; client_nonce = 97 ∷ []; result = codes "01" }

abbrev pub draw : Draw
draw = record { buf = 171 ∷ []; created_at = 30; saved_at = 31 }

abbrev pub two_minutes : List SubmitEvent
two_minutes =
    record { username = codes "admin"; time = local 60000000001 }
    ∷ record { username = codes "admin"; time = local 119000000000 }
    ∷ record { username = codes "admin"; time = local 120000000000 }
    ∷ []

abbrev pub miner : Client
miner = record {
  username = codes "admin";
  job_id = 2;
  server_nonce = codes "abcd";
  next_id = 5;
  last_submit = 3;
  sent = [];
}

abbrev pub busy : Channel
busy = record {
  id = codes "c1";
  queue = (1 ∷ []) ∷ (2 ∷ []) ∷ [];
  queue_closed = false;
  once_done = false;
  write_wait = pos 10;
  read_wait = pos 10;
  closed = record { fired = false; is_closed = false; is_done = false };
  written = [];
  delivered = [];
}

abbrev pub idle_client : TcpClient
idle_client = record {
  id = codes "u";
  name = codes "client";
  options = record { heartbeat = pos 1; read_wait = pos 1; write_wait = pos 1 };
  connected = false;
  has_conn = false;
  conn_closed = false;
  once_done = false;
  beating = false;
  written = [];
}

abbrev pub live_client : TcpClient
live_client = record idle_client { connected = true; has_conn = true }

abbrev pub at_work : ShutdownStatus
at_work = record {
  start_at = 0;
  end_at = 0;
  mq_stopped = false;
  mq_pending = 0;
  mq_errors = 0;
  store_closed = false;
  server_closed = false;
  duration = pos 0;
}

abbrev pub signals : List Signal
signals = event (record { username = codes "admin"; time = local 60000000001 }) ∷ stop_consume ∷ []

abbrev pub hub : TcpServer
hub = record {
  channels = (codes "c1", busy) ∷ [];
  acceptor = TcpServer.absent;
  message_listener = TcpServer.absent;
  state_listener = TcpServer.given;
  options = record { login_wait = pos 1; read_wait = pos 1; write_wait = pos 1 };
  once_done = false;
  disconnected = [];
}
