-- ===== src/Shutdown.antt =====
-- The `Run` of each server but that of gRPC, which only calls the package, under the harness of
-- rpcbench/bench_harness.go: what is reported when the context ends.
use gorpcbench.Prelude.{ℕ, ◌≡◌, ap, true, List, [], ◌∷◌, ◌++◌, map, All}
use gorpcbench.Go.Errors.{Error, is_net_closed, is_server_closed, Result, ok, err}
use gorpcbench.Rpcbench.RunCase.CleanUp.{nothing, harness_clean_up, clean_up, finish}
use gorpcbench.Tcp.Run
use gorpcbench.Tcp.Run.{Picks, IsClean, run-shutdown}
use gorpcbench.Gocapnp.Run as Gocapnp
use gorpcbench.Gocapnp.Run.{Woken, EndsWell, gocapnp_run-shutdown}
use gorpcbench.Mdcapnp.Run as Mdcapnp
use gorpcbench.Mdcapnp.Run.{mdcapnp_run-shutdown}
use gorpcbench.Http1.Run as Http1
use gorpcbench.Http1.Run.{http1_run-shutdown}
use gorpcbench.Websocket.Run as Websocket

-- What the calls in a server's `Run` return in the end: `close` is that of the listener, `conns` are
-- the connections that were accepted, and `e` is the error that ends the accepting.
pub data Ending : Type 0 where
  tcp : (close : Result (Unit {0})) (conns : List (Result (Unit {0}))) (e : Error) → Ending
  gocapnp : (close : Result (Unit {0})) (conns : List Woken) (e : Error) → Ending
  mdcapnp : (close vat : Result (Unit {0})) (conns : List ℕ) (e : Error) → Ending
  http1 websocket : (e : Error) → Ending

-- The context has ended and nothing else has gone wrong.
abbrev pub IsOrderly : Ending → Type 0
IsOrderly (tcp close conns e) = IsClean close × (is_net_closed e ≡ true) × All IsClean conns
IsOrderly (gocapnp close conns e) = IsClean close × (is_net_closed e ≡ true) × All EndsWell conns
IsOrderly (mdcapnp close vat conns e) = IsClean close × IsClean vat × (is_net_closed e ≡ true)
IsOrderly (http1 e) = is_server_closed e ≡ true
IsOrderly (websocket e) = is_server_closed e ≡ true

module _ (wait : List (Result (Unit {0})) → Result (Unit {0})) where
  -- The server's `Run`.
  unfoldable pub run_server : Ending → Result (Unit {0})
  run_server (tcp close conns e) = Run.run wait (λ r. r) close (map ok conns ++ err e ∷ [])
  run_server (gocapnp close conns e) = Gocapnp.run wait close (map ok conns ++ err e ∷ [])
  run_server (mdcapnp close vat conns e) = Mdcapnp.run wait close vat (map ok conns ++ err e ∷ [])
  run_server (http1 e) = Http1.run (err e)
  run_server (websocket e) = Websocket.run (err e)

  run_server_ok : (x : Ending) → Picks wait → IsOrderly x → run_server x ≡ ok tt
  unfolding run_server Websocket.run
  run_server_ok (tcp close conns e) picks (closed, listener, ends) =
      run-shutdown wait (λ r. r) close conns e [] picks closed listener ends
  run_server_ok (gocapnp close conns e) picks (closed, listener, ends) =
      gocapnp_run-shutdown wait close conns e [] picks closed listener ends
  run_server_ok (mdcapnp close vat conns e) picks (closed, vat_ends, listener) =
      mdcapnp_run-shutdown wait close vat conns e [] picks closed vat_ends listener
  run_server_ok (http1 e) picks h = http1_run-shutdown e h
  run_server_ok (websocket e) picks h = http1_run-shutdown e h

  -- When the context ends a run in which nothing else goes wrong, the harness reports nothing,
  -- whether it runs the TCP server, that of either capnp, the HTTP or the websocket server: the
  -- listener and the connections end with `nil` or with an error that is `context.Canceled`, and
  -- accepting or serving ends with the error that says that the listener, or the server, is closed.
  pub shutdown_reports_nothing :
      (x : Ending) → Picks wait → IsOrderly x → harness_clean_up (finish (run_server x)) ≡ nothing
  unfolding harness_clean_up clean_up
  shutdown_reports_nothing x picks h =
      ap (λ r. harness_clean_up (finish r)) (run_server_ok x picks h)
