-- ===== src/Rpcbench/RunCase/CleanUp.antt =====
-- rpcbench/bench_harness.go, the clean-up of `newServerHarness`: what is reported once the test has
-- ended.
use gorpcbench.Prelude.{◌≡◌, refl, Bool, false, not, Option, none, some, if◌then◌else◌, ◌↔◌}
use gorpcbench.Go.Errors.{Error, is_canceled, Result, ok, err, stuck}

-- What comes first within the second after the end: `Run` has returned, or the time is over.
pub data Finish : Type 0 where
  returned : Option Error → Finish
  timed_out : Finish

pub data Report : Type 0 where
  nothing timeout : Report
  running_failed : Error → Report

-- `errors.Is(err, context.Canceled)` where `err` may be `nil`.
abbrev pub is_canceled_or_nil : Option Error → Bool
is_canceled_or_nil none = false
is_canceled_or_nil (some e) = is_canceled e

-- `captured` is the variable `err` of `newServerHarness`. `t.Failed()` holds after `t.Errorf`, so
-- `t.FailNow` is not reached.
unfoldable pub clean_up : (captured : Option Error) → Finish → Report
clean_up captured (returned none) = nothing
clean_up captured (returned (some run_err)) =
    if not (is_canceled_or_nil captured) then running_failed run_err else nothing
clean_up captured timed_out = timeout

-- The harness comes to register the clean-up only when `err` is `nil`.
unfoldable pub harness_clean_up : Finish → Report
harness_clean_up fin = clean_up none fin

-- A `Run` that does not return never comes in time.
abbrev pub finish : Result (Unit {0}) → Finish
finish (ok x) = returned none
finish (err e) = returned (some e)
finish stuck = timed_out

-- The harness reports nothing exactly if `Run` returns `nil` in time: any error of `Run` is
-- reported, `context.Canceled` like every other.
pub harness_clean_up_iff : (fin : Finish) → (harness_clean_up fin ≡ nothing) ↔ (fin ≡ returned none)
unfolding harness_clean_up clean_up
harness_clean_up_iff (returned none) = (λ h. refl, λ h. refl)
harness_clean_up_iff (returned (some e)) = (λ h. cc, λ h. cc)
harness_clean_up_iff timed_out = (λ h. cc, λ h. cc)
