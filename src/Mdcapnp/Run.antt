-- ===== src/Mdcapnp/Run.antt =====
-- internal/rpc/mdcapnp/mdcp_server.go, `Run`: the accepted connections are handed to the vat, which
-- runs beside the loop, and the pool for connections stays empty.
use gorpcbench.Prelude.{◌≡◌, true, List, [], ◌∷◌, ◌++◌, map, Option, none}
use gorpcbench.Go.Errors.{Error, is_net_closed, Result, ok, err}
use gorpcbench.Go.Results.{◌>>=◌}
use gorpcbench.Tcp.Run.{
  Picks, IsClean, accept_all, accepts_all, served_result, served-IsClean, ignore_canceled,
  ignore_clean,
}

module _ {Conn : Type 0} (wait : List (Result (Unit {0})) → Result (Unit {0})) where
  abbrev pub waited : Option Error × List Conn → Result (Unit {0})
  waited (e, cs) = served_result e (wait [])

  unfoldable pub serve : List (Result Conn) → Result (Unit {0})
  serve accepts = do p ← accept_all wait (λ c. ok tt) accepts; waited p

  -- `vat` is what the vat's `Run` returns.
  unfoldable pub run : (close vat : Result (Unit {0})) → List (Result Conn) → Result (Unit {0})
  run close vat accepts = ignore_canceled (wait (close ∷ vat ∷ serve accepts ∷ []))

  -- A server that is shut down by its context returns `nil`, if closing the listener and the vat
  -- report no error but the end of the context, whatever becomes of the connections.
  pub mdcapnp_run-shutdown :
      (close vat : Result (Unit {0})) (cs : List Conn) (e : Error) (rest : List (Result Conn))
      → Picks wait
      → IsClean close
      → IsClean vat
      → is_net_closed e ≡ true
      → run close vat (map ok cs ++ err e ∷ rest) ≡ ok tt
  unfolding run serve
  mdcapnp_run-shutdown close vat cs e rest picks closed vat_ends listener =
      let served : IsClean (served_result none (wait [])) =
        served-IsClean (wait []) (picks IsClean [] tt tt) in
      rw (accepts_all wait (λ c. ok tt) cs e rest listener) (
        ignore_clean (wait (close ∷ vat ∷ served_result none (wait []) ∷ [])) (
          picks IsClean (close ∷ vat ∷ served_result none (wait []) ∷ []) tt
            (closed, (vat_ends, (served, tt)))))
