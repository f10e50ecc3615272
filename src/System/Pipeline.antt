-- ===== src/System/Pipeline.antt =====
-- app/server, mq/memory.go and stats/memory.go together: from submissions to the counts that
-- `Get` returns.
use kupool.Common.{
  Option-cases, Text, nat_key, text_key, lookup, Bytes, Time, Stamp, local, ℕ, ◌%◌, ◌^◌, ◌≡◌, refl,
  sym, ap, ◌∙◌, inl, inr, Option, none, some, List, [], ◌∷◌, ◌++◌,
}
use mathlib.Core.List.{append_assoc, append-nil}
use kupool.Protocol.{Codec, SubmitParams}
use kupool.State.{Session, SubmitEvent, StateStore, Effect, push, write_frame, publish, World}
use kupool.Submit.Decision.{submit-username}
use kupool.Submit.{SubmitError, submit}
use kupool.Listener.{handle_submit}
use kupool.Listener.Effects.{handle_submit-log}
use kupool.Memory.{memory_stats_store, new_memory_store, get}
use kupool.Memory.Counts.{count}
use kupool.MemoryQueue.Order.{Call, do_calls, new_run, do_calls-order}
use kupool.AppServer.{ShutdownStatus, Signal, event, consume}
use kupool.AppServer.Consumer.{taken, consume_counts}

-- The events that were published, the oldest first.
abbrev pub published : List Effect → List SubmitEvent
published [] = []
published (publish evt ∷ log) = published log ++ evt ∷ []
published (push id bytes ∷ log) = published log
published (write_frame code bytes ∷ log) = published log

-- A submission on a channel, with the two readings of the clock.
pub record Sent : Type 0 where
  pub channel_id : Text
  pub params : SubmitParams
  pub since : Time
  pub now : Time

abbrev pub event_at : Time → Option Session → SubmitEvent
event_at now none = record { username = []; time = local now }
event_at now (some s) = record { username = s.username; time = local now }

-- What the consumer is handed.
unfoldable pub signals : List SubmitEvent → List Signal
signals [] = []
signals (evt ∷ evts) = event evt ∷ signals evts

taken-signals : (evts : List SubmitEvent) → taken (signals evts) ≡ evts
unfolding taken signals
taken-signals [] = refl
taken-signals (evt ∷ evts) = ap (◌∷◌ evt) (taken-signals evts)

abbrev credit : Option SubmitError → SubmitEvent → List SubmitEvent
credit none evt = evt ∷ []
credit (some e) evt = []

credited :
    (o : Option SubmitError) (evt : SubmitEvent) (log : List Effect)
    → published (elim o [ none ↦ publish evt ∷ log | some e ↦ log ]) ≡ published log ++ credit o evt
credited none evt log = refl
credited (some e) evt log = sym (append-nil (published log))

module _ {S : Type 0} (api : StateStore S) (codec : Codec) (sha256 : Bytes → Bytes) where
  abbrev handle : Sent → World S → Option SubmitError × World S
  handle x w = handle_submit api codec sha256 x.channel_id x.params x.since x.now w

  -- The event of an accepted submission: the name in the session, and the time of acceptance.
  abbrev pub event_of : Sent → World S → SubmitEvent
  event_of x w = event_at x.now (lookup x.channel_id w.coord.sessions)

  unfoldable pub submit_all : List Sent → World S → World S
  submit_all [] w = w
  submit_all (x ∷ xs) w = submit_all xs (handle x w).1

  -- The accepted submissions, from the outcomes of the handler.
  unfoldable pub accepted : List Sent → World S → List SubmitEvent
  accepted [] w = []
  accepted (x ∷ xs) w = credit (handle x w).0 (event_of x w) ++ accepted xs (handle x w).1

  named :
      (x : Sent) (w : World S) (s : Session)
      → lookup x.channel_id w.coord.sessions ≡ some s
      → record {
        username = (submit sha256 w.coord x.params x.since x.now s).1.username;
        time = local x.now;
      }
        ≡ event_of x w
  named x w s e = rw (e, submit-username sha256 w.coord x.params x.since x.now s) refl

  handle-published :
      (x : Sent) (w : World S)
      → published (handle x w).1.log ≡ published w.log ++ credit (handle x w).0 (event_of x w)
  unfolding handle_submit
  handle-published x w = elim (Option-cases (lookup x.channel_id w.coord.sessions)) [
    | inl e ↦ rw (e, handle_submit) (sym (append-nil (published w.log)))
    | inr (s, e) ↦
        let h = handle_submit-log api codec sha256 x.channel_id x.params x.since x.now w s e in
        ap published h.1
        ∙ credited (handle x w).0 _ w.log
        ∙ ap (λ evt. published w.log ++ credit (handle x w).0 evt) (named x w s e)
  ]

  submit_all-published :
      (xs : List Sent) (w : World S)
      → published (submit_all xs w).log ≡ published w.log ++ accepted xs w
  unfolding submit_all accepted
  submit_all-published [] w = sym (append-nil (published w.log))
  submit_all-published (x ∷ xs) w =
      submit_all-published xs (handle x w).1
      ∙ ap (λ l. l ++ accepted xs (handle x w).1) (handle-published x w)
      ∙ append_assoc (published w.log) _ _

  -- Submissions are handled in turn, and in any interleaving of calls on the memory queue their
  -- events enter it and are all received by the consumer, which stores them in a new memory store.
  -- Then the store returns for each user and minute the number of the accepted submissions whose
  -- event has that minute and location, modulo 2^64.
  pub submit_all-counts :
      (xs : List Sent) (w : World S) (size : ℕ) (calls : List Call) (st : ShutdownStatus) (u : Text)
      (t : Stamp)
      → published w.log ≡ []
      → (do_calls calls (new_run size)).entered ≡ published (submit_all xs w).log
      → (do_calls calls (new_run size)).queue.buffered ≡ []
      → get u t
          (consume memory_stats_store
            (signals (do_calls calls (new_run size)).left)
            (new_memory_store, st)).0
        ≡ some (count u t (accepted xs w) % 2 ^ 64)
  submit_all-counts xs w size calls st u t fresh enters emptied =
      let r = do_calls calls (new_run size) in
      let order = do_calls-order size calls in
      let all : r.left ≡ accepted xs w =
        sym (append-nil r.left)
        ∙ ap (◌++◌ r.left) (sym emptied)
        ∙ order
        ∙ enters
        ∙ submit_all-published xs w
        ∙ ap (λ l. l ++ accepted xs w) fresh in
      let counted = (consume_counts (signals r.left) st u t).0 in
      rw (← all) (rw (taken-signals r.left) at counted)
