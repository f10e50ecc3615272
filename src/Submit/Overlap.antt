-- ===== src/Submit/Overlap.antt =====
-- app/server/listener.go, handleSubmit: a submission that is received twice, interleaved.
use kupool.Common.{◌==◌, ==_iff, update, Bytes, ℕ, ◌≡◌, refl, ap, ◌∙◌, false, Option, none, arith}
use kupool.State.{Session, Coordinator}
use kupool.Submit.{SubmitError, check_submit}
use kupool.Submit.Replay.{Attempt}
use kupool.Submit.Race.{check_submit_race}
use kupool.Submit.Goroutines.{
  waiting, checked, accepted, stage_of, Call, Shared, reach_stage, record_call, check_call, checks,
  records, Reach, here, next,
}

module _ (sha256 : Bytes → Bytes) where
  -- The outcome of the checks of a call.
  abbrev outcome : Coordinator → Attempt → Session → Option SubmitError × Session
  outcome c a s = check_submit sha256 c a.params a.since a.now s

  passed :
      (c : Coordinator) (k : ℕ) (w : Shared)
      → (outcome c (w.calls k).attempt w.session).0 ≡ none
      → ((check_call sha256 c k w).calls k).stage ≡ checked
  unfolding check_call reach_stage update
  passed c k w passes = ground (arith, ==_iff k k, ap stage_of passes)

  untouched :
      (c : Coordinator) (i j : ℕ) (w : Shared)
      → (i == j) ≡ false
      → (check_call sha256 c i w).calls j ≡ w.calls j
  unfolding check_call reach_stage update
  untouched c i j w apart = rw apart refl

  checked_session :
      (c : Coordinator) (i : ℕ) (w : Shared)
      → (check_call sha256 c i w).session ≡ (outcome c (w.calls i).attempt w.session).1
  unfolding check_call reach_stage
  checked_session c i w = refl

  abbrev both_checked : Coordinator → ℕ → ℕ → Shared → Shared
  both_checked c i j w = check_call sha256 c j (check_call sha256 c i w)

  -- If a submission is received twice and passes the checks, the two goroutines can be interleaved so
  -- that both are accepted: both check before either records.
  pub overlap_twice :
      (c : Coordinator) (i j : ℕ) (w : Shared)
      → (i == j) ≡ false
      → (w.calls i).stage ≡ waiting
      → (w.calls j).stage ≡ waiting
      → (w.calls j).attempt ≡ (w.calls i).attempt
      → let a = (w.calls i).attempt in
        (check_submit sha256 c a.params a.since a.now w.session).0 ≡ none
        → (v : Shared) × Reach sha256 w v
          × ((v.calls i).stage ≡ accepted)
          × ((v.calls j).stage ≡ accepted)
  unfolding record_call reach_stage update
  overlap_twice c i j w apart wi wj same passes =
      let a = (w.calls i).attempt in
      let w' = check_call sha256 c i w in
      let still = untouched c i j w apart in
      let again : (outcome c (w'.calls j).attempt w'.session).0 ≡ none =
        ap (λ (x : Call). (outcome c x.attempt w'.session).0) still
        ∙ ap (λ (x : Attempt). (outcome c x w'.session).0) same
        ∙ ap (λ (x : Session). (outcome c a x).0) (checked_session c i w)
        ∙ check_submit_race sha256 c a.params a.since a.now w.session passes in
      let second = passed c j w' again in
      let first = passed c i w passes in
      (
        record_call j (record_call i (both_checked c i j w)),
        next
            (next
              (next (next here (checks c i wi))
                (checks c j (ap (λ (x : Call). x.stage) still ∙ wj)))
              (records i (
                ap (λ (x : Call). x.stage)
                  (untouched c j i w' (ground (arith, apart, ==_iff i j, ==_iff j i)))
                ∙ first)))
            (records j (ground (arith, ==_iff i j, apart, second))),
        ground (arith, ==_iff i j, ==_iff j i, ==_iff i i),
        ground (arith, ==_iff j j),
      )
