-- ===== src/Examples/Sessions.antt =====
-- Tests of a session: submissions, the listener, the acceptor, the client.
use kupool.Common.{
  Text, text_beq, nat_key, text_key, lookup, codes, hex_encode, equal_fold, ◌≡◌, refl, ◌≢◌, ◌↔◌,
  none, some, [], ◌∷◌, arith,
}
use kupool.Frame.{op_binary}
use kupool.Coordinator.{new_session}
use kupool.Submit.{
  submit, check_submit, select_job, limit_rate, is_too_soon, check_duplicate, check_result,
  expected_result,
}
use kupool.Submit.Decision.{IsAcceptable, submit_iff}
use kupool.Submit.Replay.{sent, told, attempt, attempts, attempts-replay}
use kupool.Submit.Stale.{submit_stale, submit_unassigned}
use kupool.Listener.{handle_submit}
use kupool.Listener.Effects.{handle_submit-log}
use kupool.Acceptor.Admission.{IsHandshake}
use kupool.Memory.{memory_state_store}
use kupool.Examples.Toys.{
  digest, submission, authorize_request, codec, worker, coordinator, world, first_attempt,
  later_attempt, old_submission, free_submission,
}

submit_iff_example :
    ((submit digest coordinator submission 10 10 worker).0 ≡ none)
    ↔ ((n : Text) × IsAcceptable digest coordinator submission 10 10 worker n)
submit_iff_example = submit_iff digest coordinator submission 10 10 worker

accepted_once : (submit digest coordinator submission 10 10 worker).0 ≡ none
unfolding submit check_submit select_job limit_rate is_too_soon check_duplicate check_result lookup
    equal_fold text_beq expected_result hex_encode
accepted_once = refl

attempts-replay_example :
    (attempt digest coordinator later_attempt (
      attempts digest
        (sent coordinator first_attempt ∷ told 3 (codes "ef") ∷ [])
        (attempt digest coordinator first_attempt worker).1)).0
    ≢ none
attempts-replay_example =
    attempts-replay digest coordinator coordinator first_attempt later_attempt
      (sent coordinator first_attempt ∷ told 3 (codes "ef") ∷ []) worker accepted_once refl refl

submit_stale_example :
    (submit digest coordinator submission 20 20
      (submit digest coordinator old_submission 10 10 worker).1).0
    ≢ none
unfolding lookup expected_result hex_encode equal_fold text_beq
submit_stale_example =
    submit_stale digest coordinator coordinator old_submission submission 10 10 20 20 worker
      (record { nonce = 120 ∷ []; created_at = 5 }) (omega arith) refl refl refl

submit_unassigned_example :
    (submit digest coordinator free_submission 10 10 (new_session (codes "c2") (codes "eve"))).0
    ≡ none
unfolding hex_encode equal_fold text_beq
submit_unassigned_example =
    submit_unassigned digest coordinator free_submission 10 10 (codes "c2") (codes "eve") refl refl

handle_submit-log_example :
    (handle_submit memory_state_store codec digest (codes "c1") submission 10 10 world).0
    ≡ (submit digest coordinator submission 10 10 worker).0
unfolding lookup text_beq
handle_submit-log_example =
    (handle_submit-log memory_state_store codec digest (codes "c1") submission 10 10 world worker
      refl).0

authorizes :
    IsHandshake memory_state_store codec
      (some (record { op_code = op_binary; payload = [] }))
      1
      (codes "admin")
authorizes = record {
  payload = [];
  req = authorize_request;
  params = 1 ∷ [];
  is_binary = refl;
  decodes = refl;
  is_authorize = refl;
  has_id = refl;
  has_params = refl;
  names = refl;
  is_named = λ e. cc;
}

checked_once : (check_submit digest coordinator submission 10 10 worker).0 ≡ none
unfolding check_submit select_job limit_rate is_too_soon check_duplicate check_result lookup
    equal_fold text_beq expected_result hex_encode
checked_once = refl
