-- ===== src/Mdcapnp/Factory.antt =====
-- internal/rpc/mdcapnp/mdcp_factory.go, with `newServer` of mdcp_server.go, `newClient` of
-- mdcp_client.go and `newclientLevel0` of mdcp_client_level0.go; and the cases of the benchmark over
-- the two systems.
use gorpcbench.Prelude.{
  ℕ, ◌*◌, ◌≤◌, ◌<◌, ◌≡◌, refl, arith, Bool, String, replicate, length-replicate, ◌↔◌,
}
use gorpcbench.Go.Int64.{IsCount}
use gorpcbench.Go.Errors.{Result, ok}
use gorpcbench.Go.Io.{Io, pure, ◌>>=◌}
use gorpcbench.Rpcbench.Values.{Tree, size}
use gorpcbench.Rpcbench.Values.Narrow.{Widths-size}
use gorpcbench.Rpcbench.Rng.{Rng}
use gorpcbench.Rpcbench.Calls.{ClientCall}
use gorpcbench.Rpcbench.Calls.Runs.{call_bytes}
use gorpcbench.Rpcbench.Setup.Valid.{most_nodes}
use gorpcbench.Rpcbench.RunCase.{Network, RpcFactory, Sources, Reports}
use gorpcbench.Rpcbench.RunCase.Reported.{IsUp, Dials, Dials-IsUp, run_case_lem}
use gorpcbench.Mdcapnp.Ser.{Ser, max_list}
use gorpcbench.Mdcapnp.Adapter.{wrap, nil}
use gorpcbench.Mdcapnp.Client.{Rpc, State, level0_client}
use gorpcbench.Mdcapnp.Client.Exchange.{Delivers}
use gorpcbench.Mdcapnp.Client.Correct.{IsReady, level0_client-IsCorrect}
use gorpcbench.Mdcapnp.Client.Fresh.{mdcapnp_client, mdcapnp_client-IsCorrect}
use gorpcbench.Mdcapnp.Client.Fresh

module _ (net : Network) where
  -- `Vat` is what `rpc.NewVat` makes for the server's name and its handler.
  pub record MdcapServer (Vat : Type 0) : Type 0 where
    pub l : net.Listener
    pub v : Vat

module _ (net : Network) (w : Ser) (rpc : Rpc w) (Allowed : Tree → Type 0) (fuel : ℕ) where
  -- `dial` is `DialContext`; `boot` makes a vat over the connection and waits for the server's
  -- capability, and `boot0` does so for a vat of level 0.
  module _ {Conn Vat : Type 0} (vat : Vat) (dial : String → Io net.Net Conn)
      (boot boot0 : Conn → Io net.Net rpc.Line) where
    unfoldable pub new_server : net.Listener → MdcapServer net Vat
    new_server l = record { l = l; v = vat }

    abbrev pub connect : (Conn → Io net.Net rpc.Line) → String → Io net.Net rpc.Line
    connect wait addr = do conn ← dial addr; wait conn

    -- `out n` is the caller's buffer of `n` bytes, which is made of zeros.
    unfoldable pub new_md_client : String → Io net.Net (Fresh.State w rpc)
    new_md_client addr = do
      line ← connect boot addr
      pure (record { line = line; out = λ n. replicate n 0 })

    unfoldable pub new_client_level0 : String → Io net.Net (State w rpc)
    new_client_level0 addr = do
      line ← connect boot0 addr
      pure (record {
        line = line;
        build_tree = wrap rpc.no_builder nil nil;
        read_tree = wrap rpc.no_struct nil nil;
        out = λ n. replicate n 0;
      })

    -- `mdcapFactory` without `level0`, and with it.
    unfoldable pub mdcap_factory : RpcFactory net (mdcapnp_client w rpc Allowed fuel)
    mdcap_factory = record {
      Server = MdcapServer net Vat;
      new_server = λ l. ok (new_server l);
      new_rpc_client = new_md_client;
    }

    unfoldable pub level0_factory : RpcFactory net (level0_client w rpc Allowed fuel)
    level0_factory = record {
      Server = MdcapServer net Vat;
      new_server = λ l. ok (new_server l);
      new_rpc_client = new_client_level0;
    }

    module _ (Live : rpc.Line → Type 0) (Up : net.Net → Type 0)
        (delivers : Delivers w rpc Allowed fuel Live)
        (may : (v : Tree) → size v ≤ most_nodes → Allowed v) (enough : most_nodes ≤ fuel) where
      mdcap_factory-IsUp :
          Dials net (connect boot) Live Up
          → IsUp net
              (mdcapnp_client w rpc Allowed fuel)
              mdcap_factory
              (Fresh.IsReady w rpc Allowed fuel Live)
              Up
      unfolding mdcap_factory new_md_client
      mdcap_factory-IsUp =
          Dials-IsUp net (mdcapnp_client w rpc Allowed fuel) mdcap_factory
            (Fresh.IsReady w rpc Allowed fuel Live) Up (connect boot) Live
            (λ line. record { line = line; out = λ k. replicate k 0 })
            (λ line live. record { is_up = live; length_out = λ k. length-replicate k 0 })
            (λ l. (new_server l, refl)) (λ addr. refl)

      level0_factory-IsUp :
          Dials net (connect boot0) Live Up
          → IsUp net
              (level0_client w rpc Allowed fuel)
              level0_factory
              (IsReady w rpc Allowed fuel Live)
              Up
      unfolding level0_factory new_client_level0
      level0_factory-IsUp =
          Dials-IsUp net (level0_client w rpc Allowed fuel) level0_factory
            (IsReady w rpc Allowed fuel Live) Up (connect boot0) Live
            (λ line. record {
              line = line;
              build_tree = wrap rpc.no_builder nil nil;
              read_tree = wrap rpc.no_struct nil nil;
              out = λ k. replicate k 0;
            })
            (λ line live. record { is_up = live; length_out = λ k. length-replicate k 0 })
            (λ l. (new_server l, refl)) (λ addr. refl)

      -- Over a connection that delivers, every case of the mdcapnp system reports the bytes of one
      -- call and no error, where a message may hold any tree of up to 87381 nodes and the functions
      -- on trees get as many rounds.
      pub mdcapnp_case_lem :
          (g : Rng) (src : Sources g) (parallel : Bool) (call : ClientCall) (procs rounds : ℕ)
          (n : net.Net) (r : Result ℕ)
          → Dials net (connect boot) Live Up
          → Up n
          → 0 < procs
          → 0 < rounds
          → IsCount rounds
          → IsCount (rounds * call_bytes call)
          → Reports net
              (mdcapnp_client w rpc Allowed fuel)
              mdcap_factory
              g
              src
              n
              call
              procs
              rounds
              r
              parallel
            ↔ (r ≡ ok (call_bytes call))
      mdcapnp_case_lem g src parallel call procs rounds n r dials h some_procs pos few small =
          run_case_lem net (mdcapnp_client w rpc Allowed fuel) mdcap_factory g src
            (Fresh.IsReady w rpc Allowed fuel Live) Up (mdcap_factory-IsUp dials)
            (λ v s. (may v s, Widths-size max_list v (omega (arith, s)), omega (arith, s, enough)))
            (mdcapnp_client-IsCorrect w rpc Allowed fuel Live delivers) parallel call procs rounds n
            r h some_procs pos few small

      -- The same for the system of level 0.
      pub level0_case_lem :
          (g : Rng) (src : Sources g) (parallel : Bool) (call : ClientCall) (procs rounds : ℕ)
          (n : net.Net) (r : Result ℕ)
          → Dials net (connect boot0) Live Up
          → Up n
          → 0 < procs
          → 0 < rounds
          → IsCount rounds
          → IsCount (rounds * call_bytes call)
          → Reports net
              (level0_client w rpc Allowed fuel)
              level0_factory
              g
              src
              n
              call
              procs
              rounds
              r
              parallel
            ↔ (r ≡ ok (call_bytes call))
      level0_case_lem g src parallel call procs rounds n r dials h some_procs pos few small =
          run_case_lem net (level0_client w rpc Allowed fuel) level0_factory g src
            (IsReady w rpc Allowed fuel Live) Up (level0_factory-IsUp dials)
            (λ v s. (may v s, Widths-size max_list v (omega (arith, s)), omega (arith, s, enough)))
            (level0_client-IsCorrect w rpc Allowed fuel Live delivers) parallel call procs rounds n
            r h some_procs pos few small
