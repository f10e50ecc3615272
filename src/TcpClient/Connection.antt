-- ===== src/TcpClient/Connection.antt =====
-- tcp/client.go: what holds of a client between its connections.
use kupool.Common.{Bytes, ◌≡◌, Bool, true, false, Option, none, some, [], ◌∷◌, ◌++◌, arith}
use kupool.Frame.{Frame, op_close}
use kupool.TcpClient.{
  TcpClient, already_connected, no_conn, Dialed, nil_conn, dialed, connect, not_connected,
  nil_fault, send, close, read, error, no_connection,
}

-- A dialer that returns a nil connection with no error leaves a client that counts as connected:
-- a later `Connect` is refused, `Send` runs into the nil connection, `Read` reports that there is
-- none, and `Close` does not undo it.
pub connect_nil :
    (c : TcpClient) (answer : Dialed) (d w : Bool) (payload : Bytes) (f : Option Frame)
    → c.connected ≡ false
    → c.has_conn ≡ false
    → let c' = (connect true nil_conn c).1 in
      ((connect true nil_conn c).0 ≡ some no_conn)
      × ((connect true answer c').0 ≡ some already_connected)
      × ((send d w payload c').0 ≡ some nil_fault)
      × (read f c' ≡ error no_connection)
      × ((close c').connected ≡ true)
unfolding connect send read close
connect_nil c answer d w payload f h k =
    (ground arith, ground arith, ground arith, ground arith, ground arith)

-- The first `Close` of a connected client says goodbye by one close frame, behind all frames sent,
-- closes the connection and makes `Send` fail. A connection that is made afterwards can not be
-- closed: `Close` runs once.
pub close-connect :
    (c : TcpClient) (d w : Bool) (payload : Bytes)
    → c.has_conn ≡ true
    → c.once_done ≡ false
    → let c' = close c in
      (c'.written ≡ c.written ++ record { op_code = op_close; payload = [] } ∷ [])
      × (c'.conn_closed ≡ true)
      × ((send d w payload c').0 ≡ some not_connected)
      × ((connect true dialed c').0 ≡ none)
      × ((close (connect true dialed c').1).connected ≡ true)
unfolding connect send close
close-connect c d w payload h k =
    (ground arith, ground arith, ground arith, ground arith, ground arith)
