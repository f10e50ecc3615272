-- ===== src/Websocket.antt =====
-- websocket/connection.go: frames over github.com/gobwas/ws, which is a parameter.
pub mod Delivery
use kupool.Common.{if◌then◌else◌, Bytes, ℕ, Bool, false, Option}
use kupool.State.{GoError}

-- What the code uses of `ws.Frame` and its header.
pub record Header : Type 0 where
  pub op_code : ℕ
  pub masked : Bool
  pub mask : Bytes

pub record RawFrame : Type 0 where
  pub header : Header
  pub payload : Bytes

-- The functions of package ws and wsutil over a connection `C`: `Cipher` with the offset 0, which
-- turns a payload under a mask, `ReadFrame`, `NewFrame`, `WriteFrame` and `WriteClientMessage`.
pub record Ws (C : Type 0) : Type 0 where
  pub cipher : Bytes → Bytes → Bytes
  pub read_frame : C → Option RawFrame × C
  pub new_frame : ℕ → Bytes → RawFrame
  pub write_frame : RawFrame → C → GoError × C
  pub write_client_message : ℕ → Bytes → C → GoError × C

unfoldable pub set_op_code : ℕ → RawFrame → RawFrame
set_op_code code f =
    let h : Header = record { op_code = code; masked = f.header.masked; mask = f.header.mask } in
    record f { header = h }

unfoldable pub get_op_code : RawFrame → ℕ
get_op_code f = f.header.op_code

unfoldable pub set_payload : Bytes → RawFrame → RawFrame
set_payload payload f = record f { payload = payload }

module _ {C : Type 0} (ws : Ws C) where
  -- The cipher works in place, and the flag is cleared.
  unfoldable pub get_payload : RawFrame → Bytes × RawFrame
  get_payload f =
      let b : Bytes = if f.header.masked then ws.cipher f.payload f.header.mask else f.payload in
      let h : Header = record {
        op_code = f.header.op_code;
        masked = false;
        mask = f.header.mask;
      } in
      (b, record { header = h; payload = b })

  unfoldable pub read_frame : C → Option RawFrame × C
  read_frame conn = ws.read_frame conn

  unfoldable pub write_frame : ℕ → Bytes → C → GoError × C
  write_frame code payload conn = ws.write_frame (ws.new_frame code payload) conn
