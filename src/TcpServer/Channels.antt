-- ===== src/TcpServer/Channels.antt =====
-- tcp/server.go: who is in the channel map.
use kupool.Common.{
  if◌then◌else◌, Option-cases, length, All, Text, text_beq, nat_key, text_key, lookup,
  lookup-insert, lookup-delete, lookup-insert_self, lookup-delete_self, Bytes, codes, Duration, ℕ,
  zero, suc, ◌≤◌, ◌≡◌, refl, sym, ap, ◌∙◌, ◌≢◌, ◌⊎◌, inl, inr, true, false, Option, none, some, [],
  ◌∷◌, arith,
}
use kupool.Frame.{Frame}
use kupool.Channel.{Channel, Pushed, new_channel, set_read_wait, set_write_wait}
use kupool.Channel
use kupool.TcpServer.{
  TcpServer, ChannelMap, accepted, close_frame, add, remove, enter, leave, push, close_all,
  shutdown, ServerOptions,
}

-- A new channel with the waits of the server.
abbrev pub configured : Duration → Duration → Text → Channel
configured write_wait read_wait id =
    set_write_wait write_wait (set_read_wait read_wait (new_channel id))

pub configured-id : (w r : Duration) (id : Text) → (configured w r id).id ≡ id
unfolding set_write_wait set_read_wait new_channel
configured-id w r id = ground arith

-- A connection whose name is taken is turned away by a close frame, and the channel that has the
-- name stays as it was; any other accepted connection becomes a channel of its name, and all other
-- channels stay.
pub enter_once :
    (id k : Text) (s : TcpServer)
    → ((lookup id s.channels ≢ none)
        × (enter (accepted id) s ≡ (some (close_frame (codes "channelId is repeated")), s)))
      ⊎ ((lookup id s.channels ≡ none)
          × ((enter (accepted id) s).0 ≡ none)
          × (lookup k (enter (accepted id) s).1.channels ≡ (
              if text_beq id k
              then some (
                  set_write_wait s.options.write_wait
                    (set_read_wait s.options.read_wait (new_channel id)))
              else lookup k s.channels)))
unfolding enter add set_write_wait
enter_once id k s = elim (Option-cases (lookup id s.channels)) [
  | inl free ↦
      let ch = configured s.options.write_wait s.options.read_wait id in
      inr (
        free,
        rw (free, enter) refl,
        rw (free, enter)
            (rw (configured-id s.options.write_wait s.options.read_wait id)
              (lookup-insert id k ch s.channels)),
      )
  | inr (old, taken) ↦ inl ((λ e. cc), rw (taken, enter) refl)
]

push_missing :
    (id : Text) (bytes : Bytes) (s : TcpServer)
    → lookup id s.channels ≡ none
    → (push id bytes s).0 ≡ none
unfolding push
push_missing id bytes s h = rw (h, push)

-- When a connection has left, pushes to its name find no channel, its disconnect was reported, and
-- all other channels stay.
pub leave_gone :
    (id k : Text) (bytes : Bytes) (s : TcpServer)
    → ((push id bytes (leave id s)).0 ≡ none)
      × ((leave id s).disconnected ≡ id ∷ s.disconnected)
      × (lookup k (leave id s).channels ≡ (if text_beq id k then none else lookup k s.channels))
unfolding leave remove
leave_gone id k bytes s = (
  push_missing id bytes (leave id s) (lookup-delete_self id s.channels),
  refl,
  lookup-delete id k s.channels,
)

close_all-closed :
    (n : ℕ) (m : ChannelMap)
    → length m ≤ n
    → All (λ (e : Text × Channel). e.1.once_done ≡ true) (close_all n m)
unfolding close_all Channel.close
close_all-closed zero [] h = tt
close_all-closed (suc n) [] h = tt
close_all-closed zero ((k, ch) ∷ m) h = absurd (omega arith)
close_all-closed (suc n) ((k, ch) ∷ m) h = (ground arith, close_all-closed n m (omega arith))

-- The first `Shutdown` closes every channel if its context lasts; a second one changes nothing.
pub shutdown_closes :
    (n k : ℕ) (s : TcpServer)
    → s.once_done ≡ false
    → length s.channels ≤ n
    → All (λ (e : Text × Channel). e.1.once_done ≡ true) (shutdown n s).channels
      × (shutdown k (shutdown n s) ≡ shutdown n s)
unfolding shutdown
shutdown_closes n k s h small = (rw h (close_all-closed n s.channels small), ground arith)

lookup-close_all :
    (n : ℕ) (id : Text) (m : ChannelMap) → lookup id m ≡ none → lookup id (close_all n m) ≡ none
unfolding close_all lookup
lookup-close_all n id [] h = refl
lookup-close_all zero id ((k, ch) ∷ m) h = ground (arith, h)
lookup-close_all (suc n) id ((k, ch) ∷ m) h = ground (arith, h, lookup-close_all n id m)

shutdown-done : (k : ℕ) (s : TcpServer) → s.once_done ≡ true → shutdown k s ≡ s
unfolding shutdown
shutdown-done k s h = ground (arith, h)

-- What a `Shutdown` leaves to the connections behind it.
after_shutdown :
    (n : ℕ) (id : Text) (s : TcpServer)
    → lookup id s.channels ≡ none
    → (lookup id (shutdown n s).channels ≡ none)
      × ((shutdown n s).options ≡ s.options)
      × ((shutdown n s).once_done ≡ true)
unfolding shutdown
after_shutdown n id s free =
    let kept = lookup-close_all n id s.channels free in
    (ground (arith, free, kept), ground arith, ground arith)

pub enter-free :
    (id : Text) (s : TcpServer)
    → lookup id s.channels ≡ none
    → enter (accepted id) s ≡ (
      none,
      record s {
        channels = add (configured s.options.write_wait s.options.read_wait id) s.channels;
      },
    )
unfolding enter
enter-free id s free = rw (free, enter) refl

pub lookup-add :
    (id : Text) (ch : Channel) (m : ChannelMap) → ch.id ≡ id → lookup id (add ch m) ≡ some ch
unfolding add
lookup-add id ch m named =
    ap (λ (k : Text). lookup k (add ch m)) (sym named) ∙ lookup-insert_self ch.id ch m

configured-once_done : (w r : Duration) (id : Text) → (configured w r id).once_done ≡ false
unfolding set_write_wait set_read_wait new_channel
configured-once_done w r id = ground arith

-- A server takes connections behind its `Shutdown` as before: one whose name is free becomes a
-- channel with the waits of the server, which is not closed, and no further `Shutdown` closes it.
pub enter-shutdown :
    (n k : ℕ) (id : Text) (s : TcpServer)
    → lookup id s.channels ≡ none
    → let r = enter (accepted id) (shutdown n s) in
      let ch = configured s.options.write_wait s.options.read_wait id in
      (r.0 ≡ none)
      × (lookup id r.1.channels ≡ some ch)
      × (ch.once_done ≡ false)
      × (shutdown k r.1 ≡ r.1)
enter-shutdown n k id s free =
    let (free', options, once) = after_shutdown n id s free in
    let s' = shutdown n s in
    let open_waits = enter-free id s' free' in
    (
      ap (λ (x : Option Frame × TcpServer). x.0) open_waits,
      ap (λ (x : Option Frame × TcpServer). lookup id x.1.channels) open_waits
          ∙ lookup-add id (configured s'.options.write_wait s'.options.read_wait id) s'.channels
              (configured-id s'.options.write_wait s'.options.read_wait id)
          ∙ ap (λ (o : ServerOptions). some (configured o.write_wait o.read_wait id)) options,
      configured-once_done s.options.write_wait s.options.read_wait id,
      rw open_waits (shutdown-done k _ once),
    )
