-- ===== src/Examples/Sharing.antt =====
-- Tests of the goroutines that handle submissions.
use kupool.Common.{
  text_beq, nat_key, text_key, lookup, hex_encode, equal_fold, stamp_key, ◌≡◌, refl, none,
}
use kupool.Submit.{
  check_submit, select_job, limit_rate, is_too_soon, check_duplicate, check_result, expected_result,
}
use kupool.Submit.Goroutines.{Shared, waiting, accepted, Reach}
use kupool.Submit.Overlap.{overlap_twice}
use kupool.Examples.Toys.{digest, coordinator, submission, worker}

-- The submission of the worker, received twice.
abbrev received : Shared
received = record {
  session = worker;
  calls = λ i. record {
    attempt = record { params = submission; since = 10; now = 10 };
    stage = waiting;
  };
}

passes_once : (check_submit digest coordinator submission 10 10 worker).0 ≡ none
unfolding check_submit select_job limit_rate is_too_soon check_duplicate check_result lookup
    equal_fold text_beq expected_result hex_encode
passes_once = refl

overlap_twice_example :
    (v : Shared) × Reach digest received v
    × ((v.calls 0).stage ≡ accepted)
    × ((v.calls 1).stage ≡ accepted)
overlap_twice_example =
    overlap_twice digest coordinator 0 1 received refl refl refl refl passes_once
