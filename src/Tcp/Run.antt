-- ===== src/Tcp/Run.antt =====
-- internal/rpc/tcp/tcp_server.go, `Run`: the loop that accepts connections, and what it returns once
-- the connections have ended. The servers of both capnp systems have the same loop.
use gorpcbench.Prelude.{
  ◌≡◌, refl, List, [], ◌∷◌, ◌++◌, map, Option, none, some, true, if◌then◌else◌, All,
}
use gorpcbench.Go.Errors.{Error, wrapped, is_net_closed, is_canceled, Result, ok, err, stuck}
use gorpcbench.Go.Results.{◌>>=◌}

-- A listener that is closed is no error.
abbrev pub reported : Error → Option Error
reported e = if is_net_closed e then none else some e

abbrev pub ignore_canceled : Result (Unit {0}) → Result (Unit {0})
ignore_canceled (ok x) = ok x
ignore_canceled (err e) = if is_canceled e then ok tt else err e
ignore_canceled stuck = stuck

abbrev pub served_result : Option Error → Result (Unit {0}) → Result (Unit {0})
served_result (some e) r = err (wrapped "server Accept() errored" e)
served_result none (ok x) = ok x
served_result none (err e) = err (wrapped "conn wait() errored" e)
served_result none stuck = stuck

-- `wait` is `Wait` of a pool of github.com/sourcegraph/conc, given what its functions return, and
-- `ends` is what `runConn` returns for a connection.
module _ {Conn : Type 0} (wait : List (Result (Unit {0})) → Result (Unit {0}))
    (ends : Conn → Result (Unit {0})) where
  abbrev pub with_conn :
      Conn → Result (Option Error × List Conn) → Result (Option Error × List Conn)
  with_conn c (ok (e, cs)) = ok (e, c ∷ cs)
  with_conn c (err e) = err e
  with_conn c stuck = stuck

  -- What the calls of `Accept` return, one after the other, until one fails.
  unfoldable pub accept_all : List (Result Conn) → Result (Option Error × List Conn)
  accept_all [] = stuck
  accept_all (ok c ∷ rest) = with_conn c (accept_all rest)
  accept_all (err e ∷ rest) = ok (reported e, [])
  accept_all (stuck ∷ rest) = stuck

  abbrev pub waited : Option Error × List Conn → Result (Unit {0})
  waited (e, cs) = served_result e (wait (map ends cs))

  unfoldable pub serve : List (Result Conn) → Result (Unit {0})
  serve accepts = do p ← accept_all accepts; waited p

  -- `close` is what closing the listener returns once the context has ended.
  unfoldable pub run : Result (Unit {0}) → List (Result Conn) → Result (Unit {0})
  run close accepts = ignore_canceled (wait (close ∷ serve accepts ∷ []))

-- `nil`, or an error that the end of the context explains.
abbrev pub IsClean : Result (Unit {0}) → Type 0
IsClean (ok x) = Unit
IsClean (err e) = is_canceled e ≡ true
IsClean stuck = ⊥

-- A pool returns `nil` or what one of its functions returned.
abbrev pub Picks : (List (Result (Unit {0})) → Result (Unit {0})) → Type 1
Picks wait =
    (P : Result (Unit {0}) → Type 0) (rs : List (Result (Unit {0})))
    → P (ok tt)
    → All P rs
    → P (wait rs)

pub served-IsClean : (r : Result (Unit {0})) → IsClean r → IsClean (served_result none r)
served-IsClean (ok x) h = tt
served-IsClean (err e) h = h
served-IsClean stuck h = absurd h

pub ignore_clean : (r : Result (Unit {0})) → IsClean r → ignore_canceled r ≡ ok tt
ignore_clean (ok x) h = refl
ignore_clean (err e) h = rw h
ignore_clean stuck h = absurd h

module _ {Conn : Type 0} (wait : List (Result (Unit {0})) → Result (Unit {0}))
    (ends : Conn → Result (Unit {0})) where
  pub accepts_all :
      (cs : List Conn) (e : Error) (rest : List (Result Conn))
      → is_net_closed e ≡ true
      → accept_all wait ends (map ok cs ++ err e ∷ rest) ≡ ok (none, cs)
  unfolding accept_all
  accepts_all [] e rest h = rw h
  accepts_all (c ∷ cs) e rest h = rw (accepts_all cs e rest h) refl

  pub All-ends : (cs : List Conn) → All (λ c. IsClean (ends c)) cs → All IsClean (map ends cs)
  All-ends [] h = tt
  All-ends (c ∷ cs) (h, hs) = (h, All-ends cs hs)

  -- A server that is shut down by its context returns `nil`: after any number of connections
  -- `Accept` reports that the listener is closed, and each connection ends with `nil` or with an
  -- error that is `context.Canceled`, however deeply it is wrapped.
  pub run-shutdown :
      (close : Result (Unit {0})) (cs : List Conn) (e : Error) (rest : List (Result Conn))
      → Picks wait
      → IsClean close
      → is_net_closed e ≡ true
      → All (λ c. IsClean (ends c)) cs
      → run wait ends close (map ok cs ++ err e ∷ rest) ≡ ok tt
  unfolding run serve
  run-shutdown close cs e rest picks closed listener hs =
      let served : IsClean (served_result none (wait (map ends cs))) =
        served-IsClean (wait (map ends cs)) (picks IsClean (map ends cs) tt (All-ends cs hs)) in
      rw (accepts_all cs e rest listener) (
        ignore_clean (wait (close ∷ served_result none (wait (map ends cs)) ∷ [])) (
          picks IsClean (close ∷ served_result none (wait (map ends cs)) ∷ []) tt
            (closed, (served, tt))))
