-- ===== src/Http1/Run.antt =====
-- The end of `Run` in internal/rpc/http1/http1_server.go: `Serve` of net/http returns an error always,
-- and after `Shutdown` the one that says so.
use gorpcbench.Prelude.{◌≡◌, refl, true, if◌then◌else◌}
use gorpcbench.Go.Errors.{is_server_closed, Error, Result, ok, err, stuck}

-- `served` is what `hs.Serve` returns.
unfoldable pub run : (served : Result (Unit {0})) → Result (Unit {0})
run (ok x) = ok tt
run (err e) = if is_server_closed e then ok tt else err e
run stuck = stuck

pub http1_run-shutdown : (e : Error) → is_server_closed e ≡ true → run (err e) ≡ ok tt
unfolding run
http1_run-shutdown e h = rw h refl
