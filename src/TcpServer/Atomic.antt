-- ===== src/TcpServer/Atomic.antt =====
-- tcp/server.go: the goroutines against the handler as one step.
use kupool.Common.{
  if◌then◌else◌, Text, text_beq, text_beq_iff, nat_key, text_key, lookup, lookup-insert,
  lookup-delete, Duration, ℕ, ◌≡◌, refl, ap, ◌∙◌, inl, inr, Option, none, some, List, [], ◌∷◌,
  arith,
}
use kupool.Channel.{Channel}
use kupool.Frame.{Frame}
use kupool.TcpServer.{TcpServer, ChannelMap, Answer, accepted, refused, enter, leave, add, remove}
use kupool.TcpServer.Channels.{configured, configured-id, enter-free, enter_once}
use kupool.TcpServer.Goroutines.{
  Net, go_to, take_answer, add_channel, remove_channel, tell, close_channel, Step, answers, checks,
  adds, removes, tells, closes, started,
}
use kupool.TcpServer.Owners.{check_name-cases}
use kupool.TcpServer.Calm.{Calm, calm, later, Inv, Calm-Inv}

-- What happens to a server that handles a connection in one step when it enters, and in one when it
-- leaves.
pub data Event : Type 0 where
  enters : Answer → Event
  leaves : Text → Event

-- The newest event comes first.
unfoldable pub serve_events : List Event → TcpServer → TcpServer
serve_events [] t = t
serve_events (enters a ∷ l) t = (enter a (serve_events l t)).1
serve_events (leaves id ∷ l) t = leave id (serve_events l t)

abbrev turned : Text → Option ℕ → List Event → List Event
turned id none l = l
turned id (some j) l = enters (accepted id) ∷ l

-- A connection is handled when the acceptor refuses it, when its check finds its name taken, or when
-- it enters the map; and it leaves when it is taken out of the map.
abbrev pub event_of : {s t : Net} → Step s t → List Event → List Event
event_of (answers i (accepted id) h) l = l
event_of (answers i (refused reason) h) l = enters (refused reason) ∷ l
event_of {s} (checks i h) l = turned (s.conns i).name (lookup (s.conns i).name s.channels) l
event_of {s} (adds i h) l = enters (accepted (s.conns i).name) ∷ l
event_of {s} (removes i h) l = leaves (s.conns i).name ∷ l
event_of (tells i h) l = l
event_of (closes i h) l = l

abbrev pub trace : {s t : Net} → Calm s t → List Event
trace calm = []
trace (later run alone st) = event_of st (trace run)

-- The channels of the server are new channels of the names that the goroutines' map holds.
abbrev pub shown : Duration → Duration → Text → Option ℕ → Option Channel
shown w r k none = none
shown w r k (some i) = some (configured w r k)

lookup-add_any :
    (id k : Text) (ch : Channel) (m : ChannelMap)
    → ch.id ≡ id
    → lookup k (add ch m) ≡ (if text_beq id k then some ch else lookup k m)
unfolding add
lookup-add_any id k ch m named =
    lookup-insert ch.id k ch m
    ∙ ap (λ (j : Text). if text_beq j k then some ch else lookup k m) named

enter-refused : (reason : Text) (t : TcpServer) → (enter (refused reason) t).1 ≡ t
unfolding enter
enter-refused reason t = refl

module _ (w r : Duration) where
  abbrev pub Matches : Net → TcpServer → Type 0
  Matches s t =
      ((k : Text) → lookup k t.channels ≡ shown w r k (lookup k s.channels))
      × (t.options.write_wait ≡ w)
      × (t.options.read_wait ≡ r)

  Matches-add_channel :
      (t : TcpServer) (i : ℕ) (s : Net)
      → lookup (s.conns i).name s.channels ≡ none
      → Matches s t
      → Matches (add_channel i s) (enter (accepted (s.conns i).name) t).1
  unfolding add_channel go_to
  Matches-add_channel t i s unused (alike, we, re) =
      let n = (s.conns i).name in
      let unused' : lookup n t.channels ≡ none = alike n ∙ ap (shown w r n) unused in
      let entered = enter-free n t unused' in
      let ch = configured t.options.write_wait t.options.read_wait n in
      (
        λ k.
            ap (λ (x : Option Frame × TcpServer). lookup k x.1.channels) entered
            ∙ lookup-add_any n k ch t.channels
                (configured-id t.options.write_wait t.options.read_wait n)
            ∙ ground (arith, we, re, alike k, text_beq_iff n k, lookup-insert n k i s.channels),
        ap (λ (x : Option Frame × TcpServer). x.1.options.write_wait) entered ∙ we,
        ap (λ (x : Option Frame × TcpServer). x.1.options.read_wait) entered ∙ re,
      )

  Matches-remove_channel :
      (t : TcpServer) (i : ℕ) (s : Net)
      → Matches s t
      → Matches (remove_channel i s) (leave (s.conns i).name t)
  unfolding remove_channel go_to leave remove
  Matches-remove_channel t i s (alike, we, re) =
      let n = (s.conns i).name in
      (
        λ k. ground (arith, alike k, lookup-delete n k t.channels, lookup-delete n k s.channels),
        we,
        re,
      )

  -- A connection whose name is taken is turned away there too, and changes nothing.
  Matches-taken :
      (t : TcpServer) (i j : ℕ) (s : Net)
      → lookup (s.conns i).name s.channels ≡ some j
      → Matches s t
      → (enter (accepted (s.conns i).name) t).1 ≡ t
  Matches-taken t i j s taken (alike, we, re) =
      let n = (s.conns i).name in
      let there = alike n ∙ ap (shown w r n) taken in
      elim (enter_once n n t) [
        | inl (known, away) ↦ ap (λ (x : Option Frame × TcpServer). x.1) away
        | inr (free, out, now) ↦ absurd (cc)
      ]

  Matches-step :
      {s u : Net} (t₀ : TcpServer) (l : List Event) (st : Step s u)
      → Inv s
      → Matches s (serve_events l t₀)
      → Matches u (serve_events (event_of st l) t₀)
  unfolding go_to take_answer tell close_channel serve_events
  Matches-step t₀ l (answers i (accepted id) h) inv m = m
  Matches-step t₀ l (answers i (refused e) h) inv m = rw (enter-refused e (serve_events l t₀)) m
  Matches-step {s} t₀ l (checks i h) inv m = elim (check_name-cases i s) [
    | inl (unused, e) ↦ rw (e, unused) m
    | inr (j, taken, e) ↦ rw (e, taken, Matches-taken (serve_events l t₀) i j s taken m) m
  ]
  Matches-step {s} t₀ l (adds i h) inv m =
      Matches-add_channel (serve_events l t₀) i s (inv.free i h) m
  Matches-step {s} t₀ l (removes i h) inv m = Matches-remove_channel (serve_events l t₀) i s m
  Matches-step t₀ l (tells i h) inv m = m
  Matches-step t₀ l (closes i h) inv m = m

  Matches-trace :
      {s : Net} (t₀ : TcpServer) (run : Calm started s)
      → Matches started t₀
      → Matches s (serve_events (trace run) t₀)
  unfolding serve_events
  Matches-trace t₀ calm m = m
  Matches-trace t₀ (later run alone st) m =
      Matches-step t₀ (trace run) st (Calm-Inv run) (Matches-trace t₀ run m)

-- A calm run of the goroutines does to the map of an empty server what the server does that handles
-- each connection in one step when it is refused, turned away or entered, and in one step when it is
-- taken out, in the order in which the goroutines come to these points: the map holds the same
-- names, each with a new channel of that name and the waits of the server.
pub serve_events-trace :
    {s : Net} (t₀ : TcpServer) (run : Calm started s) (k : Text)
    → t₀.channels ≡ []
    → lookup k (serve_events (trace run) t₀).channels
      ≡ shown t₀.options.write_wait t₀.options.read_wait k (lookup k s.channels)
unfolding started lookup
serve_events-trace t₀ run k empty =
    (Matches-trace t₀.options.write_wait t₀.options.read_wait t₀ run
        ((λ j. ap (lookup j) empty), refl, refl)).0
      k
