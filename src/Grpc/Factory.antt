-- ===== src/Grpc/Factory.antt =====
-- internal/rpc/grpc/grpc_factory.go, with `newGRPCServer` and `Run` of grpc_server.go and
-- `newGRPCClient` of grpc_client.go; and the cases of the benchmark over this system.
use gorpcbench.Prelude.{
  ℕ, ◌*◌, ◌<◌, ◌≡◌, refl, arith, Bool, String, replicate, length-replicate, ◌↔◌,
}
use gorpcbench.Go.Int64.{IsCount}
use gorpcbench.Go.Errors.{Result, ok}
use gorpcbench.Go.Io.{Io, pure, ◌>>=◌}
use gorpcbench.Rpcbench.Rng.{Rng}
use gorpcbench.Rpcbench.Calls.{ClientCall}
use gorpcbench.Rpcbench.Calls.Runs.{call_bytes}
use gorpcbench.Rpcbench.RunCase.{Network, RpcFactory, Sources, Reports}
use gorpcbench.Rpcbench.RunCase.Reported.{IsUp, Dials, Dials-IsUp, run_case_lem}
use gorpcbench.Grpc.Tree.{node, nil, end}
use gorpcbench.Grpc.Api.{Transport, State, grpc_client}
use gorpcbench.Grpc.Api.Correct.{Delivers, IsReady, grpc_client-IsCorrect}

module _ (net : Network) (w : Transport) (extra : ℕ → ℕ) where
  -- `Registry` is what `RegisterAPIServer` makes of a new `grpc.Server`.
  pub record GrpcServer (Registry : Type 0) : Type 0 where
    pub gs : Registry
    pub l : net.Listener

  module _ {Registry : Type 0} (register : Registry) (connect : String → Io net.Net w.Line) where
    unfoldable pub new_grpc_server : net.Listener → GrpcServer Registry
    new_grpc_server l = record { gs = register; l = l }

    -- `connect` is `grpc.NewClient`. `out n` is the caller's buffer of `n` bytes, which is made of zeros.
    unfoldable pub new_grpc_client : String → Io net.Net (State w)
    new_grpc_client addr = do
      conn ← connect addr
      pure (record { line = conn; tree = node 0 nil end; out = λ n. replicate n 0 })

    unfoldable pub grpc_factory : RpcFactory net (grpc_client w extra)
    grpc_factory = record {
      Server = GrpcServer Registry;
      new_server = λ l. ok (new_grpc_server l);
      new_rpc_client = new_grpc_client;
    }

    grpc_factory-IsUp :
        (Live : w.Line → Type 0) (Up : net.Net → Type 0)
        → Dials net connect Live Up
        → IsUp net (grpc_client w extra) grpc_factory (IsReady w Live) Up
    unfolding grpc_factory new_grpc_client
    grpc_factory-IsUp Live Up =
        Dials-IsUp net (grpc_client w extra) grpc_factory (IsReady w Live) Up connect Live
          (λ line. record { line = line; tree = node 0 nil end; out = λ k. replicate k 0 })
          (λ line live. record { is_up = live; length_out = λ k. length-replicate k 0 })
          (λ l. (new_grpc_server l, refl)) (λ addr. refl)

    -- Over a transport that delivers what is within its limit, every case of the gRPC system reports the bytes of one call and
    -- no error.
    pub grpc_case_lem :
        (Live : w.Line → Type 0) (Up : net.Net → Type 0) (g : Rng) (src : Sources g)
        (parallel : Bool) (call : ClientCall) (procs rounds : ℕ) (n : net.Net) (r : Result ℕ)
        → Delivers w Live
        → Dials net connect Live Up
        → Up n
        → 0 < procs
        → 0 < rounds
        → IsCount rounds
        → IsCount (rounds * call_bytes call)
        → Reports net (grpc_client w extra) grpc_factory g src n call procs rounds r parallel
          ↔ (r ≡ ok (call_bytes call))
    grpc_case_lem Live Up g src parallel call procs rounds n r delivers dials h some_procs pos few
          small =
        run_case_lem net (grpc_client w extra) grpc_factory g src (IsReady w Live) Up
          (grpc_factory-IsUp Live Up dials) (λ v h. omega (arith, h))
          (grpc_client-IsCorrect w Live delivers extra) parallel call procs rounds n r h some_procs
          pos few small
