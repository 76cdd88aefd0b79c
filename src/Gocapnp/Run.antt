-- ===== src/Gocapnp/Run.antt =====
-- internal/rpc/gocapnp/gocapnp_server.go, `runConn` and `Run`; and the latter's end at a shutdown.
use gorpcbench.Prelude.{◌≡◌, true, List, [], ◌∷◌, ◌++◌, map, All}
use gorpcbench.Go.Errors.{Error, is_net_closed, Result, ok, err}
use gorpcbench.Tcp.Run
use gorpcbench.Tcp.Run.{Picks, IsClean}

-- Why the wait of `runConn` ends, with what `conn.Close` returns in the second case.
pub data Woken : Type 0 where
  conn_done : Woken
  ctx_done : (close : Result (Unit {0})) → Woken

unfoldable pub run_conn : Woken → Result (Unit {0})
run_conn conn_done = ok tt
run_conn (ctx_done close) = close

-- The body of `Run` is that of the TCP server, with this `runConn`.
unfoldable pub run :
    (List (Result (Unit {0})) → Result (Unit {0}))
    → Result (Unit {0})
    → List (Result Woken)
    → Result (Unit {0})
run wait close accepts = Run.run wait run_conn close accepts

-- The connection is over already, or closing it reports no error but the end of the context.
abbrev pub EndsWell : Woken → Type 0
EndsWell conn_done = Unit
EndsWell (ctx_done close) = IsClean close

All-IsClean : (cs : List Woken) → All EndsWell cs → All (λ c. IsClean (run_conn c)) cs
unfolding run_conn
All-IsClean [] h = tt
All-IsClean (conn_done ∷ cs) (h, hs) = (tt, All-IsClean cs hs)
All-IsClean (ctx_done close ∷ cs) (h, hs) = (h, All-IsClean cs hs)

-- A server that is shut down by its context returns `nil`, whether its connections had ended or are
-- closed then.
pub gocapnp_run-shutdown :
    (wait : List (Result (Unit {0})) → Result (Unit {0})) (close : Result (Unit {0}))
    (cs : List Woken) (e : Error) (rest : List (Result Woken))
    → Picks wait
    → IsClean close
    → is_net_closed e ≡ true
    → All EndsWell cs
    → run wait close (map ok cs ++ err e ∷ rest) ≡ ok tt
unfolding run
gocapnp_run-shutdown wait close cs e rest picks closed listener ends =
    Run.run-shutdown wait run_conn close cs e rest picks closed listener (All-IsClean cs ends)
