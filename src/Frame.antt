-- ===== src/Frame.antt =====
-- server.go and tcp/connection.go: operation codes, and frames on a TCP connection.
pub mod RoundTrip
pub mod Cut
pub mod Progress
use kupool.Common.{length, Bytes, IsByte, ℕ, ◌^◌, ◌<◌}
use kupool.Io.{Reads, ◌>>=◌, pure, Writer, Writes, go_on}
use kupool.Wire.{read_uint8, read_bytes, write_uint8, write_bytes}

-- `type OpCode byte` and its constants.
abbrev pub op_continuation : ℕ
op_continuation = 0x0

abbrev pub op_text : ℕ
op_text = 0x1

abbrev pub op_binary : ℕ
op_binary = 0x2

abbrev pub op_close : ℕ
op_close = 0x8

abbrev pub op_ping : ℕ
op_ping = 0x9

abbrev pub op_pong : ℕ
op_pong = 0xa

pub record Frame : Type 0 where
  pub op_code : ℕ
  pub payload : Bytes

-- `TcpConn.ReadFrame`.
unfoldable pub read_frame : Reads Frame
read_frame = do
  opcode ← read_uint8
  payload ← read_bytes
  pure (record { op_code = opcode; payload = payload })

-- `WriteFrame`, and the method of TcpConn that calls it.
unfoldable pub write_frame : {W : Type 0} → Writer W → ℕ → Bytes → Writes W
write_frame out code payload w = go_on (write_uint8 out code w) (write_bytes out payload)

-- What a peer can put into a frame: a byte of code, and a length that fits 32 bits.
pub record IsSendable (f : Frame) : Type 0 where
  pub code_fits : IsByte f.op_code
  pub length_fits : length f.payload < 2 ^ 32
