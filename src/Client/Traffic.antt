-- ===== src/Client/Traffic.antt =====
-- cmd/kupool-client/main.go: the frames that the miner's program writes on its connection.
use kupool.Common.{length, Text, Bytes, ℕ, ◌+◌, ◌≤◌, ◌≡◌, List, [], ◌∷◌, ◌++◌}
use kupool.Frame.{Frame, op_ping, op_close}
use kupool.Protocol.{Codec}
use kupool.TcpClient.{TcpClient}
use kupool.TcpClient
use kupool.Client.{Client, Turn, authorize_frame}
use kupool.Client.Honest.{binary, submission}
use kupool.Client.Program.{App, Event, Exit, fatal, returned}

abbrev op_frame : ℕ → Frame
op_frame op = record { op_code = op; payload = [] }

module _ (codec : Codec) (sha256 : Bytes → Bytes) where
  -- The frames on a connection, the oldest first, of a client whose next id is `n`.
  pub data Traffic (hello : Frame) : ℕ → List Frame → Type 0 where
    silent : Traffic hello 1 []
    greeted : Traffic hello 1 (hello ∷ [])
    pinged :
        {n : ℕ} {l : List Frame} → Traffic hello n l → Traffic hello n (l ++ op_frame op_ping ∷ [])
    closed :
        {n : ℕ} {l : List Frame} → Traffic hello n l → Traffic hello n (l ++ op_frame op_close ∷ [])
    lost : {n : ℕ} {l : List Frame} → Traffic hello n l → Traffic hello (n + 1) l
    submitted :
        {l : List Frame} (c : Client) (t : Turn)
        → Traffic hello c.next_id l
        → Traffic hello (c.next_id + 1) (l ++ binary (submission codec sha256 c t) ∷ [])

  -- The client in between: it has handed over what it sent, and its frames are its traffic.
  record IsClient (hello : Frame) (a : App) : Type 0 where
    pub handed : a.state.sent ≡ []
    pub traffic : Traffic hello a.state.next_id a.cli.written

  -- The client behind a step, and how many ids it has used.
  abbrev Follows : Frame → App → App → Type 0
  Follows hello a b = IsClient hello b × (b.state.next_id ≤ a.state.next_id + 1)

  abbrev pub EndsWell : Text → List Event → Exit → Type 0
  EndsWell user xs (fatal e) = ⊥
  EndsWell user xs (returned (ended, a)) =
      Traffic (authorize_frame codec sha256 user) a.state.next_id a.cli.written
      × (a.state.next_id ≤ 1 + length xs)
