-- ===== src/Gocapnp/Factory.antt =====
-- internal/rpc/gocapnp/gocapnp_factory.go, with `newGoCapnpServer` of gocapnp_server.go and
-- `newGoCapnpClient` of gocapnp_client.go; and the cases of the benchmark over this system.
use gorpcbench.Prelude.{
  ℕ, ◌*◌, ◌≤◌, ◌<◌, ◌≡◌, refl, arith, Bool, true, String, replicate, length-replicate, ◌↔◌,
}
use gorpcbench.Go.Int64.{IsCount}
use gorpcbench.Go.Errors.{Result, ok}
use gorpcbench.Go.Io.{Io, pure, ◌>>=◌}
use gorpcbench.Rpcbench.Values.{Tree, size}
use gorpcbench.Rpcbench.Values.Narrow.{Widths-size}
use gorpcbench.Rpcbench.Rng.{Rng}
use gorpcbench.Rpcbench.Calls.{ClientCall}
use gorpcbench.Rpcbench.Calls.Runs.{call_bytes}
use gorpcbench.Rpcbench.Setup.Valid.{most_nodes}
use gorpcbench.Rpcbench.RunCase.{Network, RpcFactory, Sources, Reports}
use gorpcbench.Rpcbench.RunCase.Reported.{IsUp, Dials, Dials-IsUp, run_case_lem}
use gorpcbench.Gocapnp.Runtime.{Runtime, max_list}
use gorpcbench.Gocapnp.Api.{Api, State, gocapnp_client}
use gorpcbench.Gocapnp.Api.Correct.{Delivers, IsReady, gocapnp_client-IsCorrect}

module _ (net : Network) where
  pub record GocapnpServer : Type 0 where
    pub l : net.Listener
    pub skip_log : Bool

  unfoldable pub new_go_capnp_server : net.Listener → Result GocapnpServer
  new_go_capnp_server l = ok (record { l = l; skip_log = true })

module _ (net : Network) (w : Runtime) (api : Api w) (Allowed : Tree → Type 0) (fuel : ℕ) where
  -- `dial` is `DialContext`, and `resolve` the wait for the server's capability over the connection.
  module _ {Conn : Type 0} (dial : String → Io net.Net Conn)
      (resolve : Conn → Io net.Net api.Line) where
    abbrev pub connect : String → Io net.Net api.Line
    connect addr = do conn ← dial addr; resolve conn

    -- `out n` is the caller's buffer of `n` bytes, which is made of zeros.
    unfoldable pub new_go_capnp_client : String → Io net.Net (State w api)
    new_go_capnp_client addr = do
      line ← connect addr
      pure (record { line = line; out = λ n. replicate n 0 })

    unfoldable pub gocapnp_factory : RpcFactory net (gocapnp_client w api Allowed fuel)
    gocapnp_factory = record {
      Server = GocapnpServer net;
      new_server = new_go_capnp_server net;
      new_rpc_client = new_go_capnp_client;
    }

    module _ (Live : api.Line → Type 0) (Up : net.Net → Type 0)
        (delivers : Delivers w api Allowed fuel Live) (dials : Dials net connect Live Up) where
      gocapnp_factory-IsUp :
          IsUp net
            (gocapnp_client w api Allowed fuel)
            gocapnp_factory
            (IsReady w api Allowed fuel Live)
            Up
      unfolding gocapnp_factory new_go_capnp_server new_go_capnp_client
      gocapnp_factory-IsUp =
          Dials-IsUp net (gocapnp_client w api Allowed fuel) gocapnp_factory
            (IsReady w api Allowed fuel Live) Up connect Live
            (λ line. record { line = line; out = λ k. replicate k 0 })
            (λ line live. record { is_up = live; length_out = λ k. length-replicate k 0 })
            (λ l. (record { l = l; skip_log = true }, refl)) (λ addr. refl) dials

      -- Over a connection that delivers, every case of the go-capnp system reports the bytes of one
      -- call and no error, where a message may hold any tree of up to 87381 nodes and the server's
      -- functions get as many rounds.
      pub gocapnp_case_lem :
          (g : Rng) (src : Sources g) (parallel : Bool) (call : ClientCall) (procs rounds : ℕ)
          (n : net.Net) (r : Result ℕ)
          → ((v : Tree) → size v ≤ most_nodes → Allowed v)
          → most_nodes ≤ fuel
          → Up n
          → 0 < procs
          → 0 < rounds
          → IsCount rounds
          → IsCount (rounds * call_bytes call)
          → Reports net
              (gocapnp_client w api Allowed fuel)
              gocapnp_factory
              g
              src
              n
              call
              procs
              rounds
              r
              parallel
            ↔ (r ≡ ok (call_bytes call))
      gocapnp_case_lem g src parallel call procs rounds n r may enough h some_procs pos few small =
          run_case_lem net (gocapnp_client w api Allowed fuel) gocapnp_factory g src
            (IsReady w api Allowed fuel Live) Up gocapnp_factory-IsUp
            (λ v s. (may v s, Widths-size max_list v (omega (arith, s)), omega (arith, s, enough)))
            (gocapnp_client-IsCorrect w api Allowed fuel Live delivers) parallel call procs rounds n
            r h some_procs pos few small
