-- ===== src/Rpcbench/RunCase.antt =====
-- rpcbench/interface.go, `RPCFactory`; rpcbench/bench_harness.go, `newServerHarness` and
-- `newClientHarness`; rpcbench/bench_runner.go, `RunCase`: from the listener to what is reported.
pub mod Reported
pub mod CleanUp
use gorpcbench.Prelude.{
  ℕ, zero, suc, ◌%◌, ◌/◌, ◌≡◌, Bool, true, false, String, Option, none, some, List, [], ◌∷◌, ◌++◌,
  get_elem?, replicate, if◌then◌else◌,
}
use gorpcbench.Go.Errors.{Error, Result, ok, err, stuck}
use gorpcbench.Go.Io.{Io, pure, ◌>>=◌}
use gorpcbench.Go.Binary.{put_uint64}
use gorpcbench.Rpcbench.Client.{Client}
use gorpcbench.Rpcbench.Rng.{Rng}
use gorpcbench.Rpcbench.Calls.{ClientCall, BenchClient}
use gorpcbench.Rpcbench.Setup.{new_client}
use gorpcbench.Rpcbench.Bench.{Totals, set_bytes, run_sequential_bench}
use gorpcbench.Rpcbench.Bench.Parallel.{collecting, Steps, init}

-- Package net: `listen` is `net.Listen`, and `Net` the state of the network.
pub record Network : Type 1 where
  pub Listener : Type 0
  pub Net : Type 0
  pub listen : Io Net Listener
  pub address : Listener → String

-- `NewClient` comes back with a client that is connected, here the state of one.
pub record RpcFactory (net : Network) (c : Client) : Type 1 where
  pub Server : Type 0
  pub new_server : net.Listener → Result Server
  pub new_rpc_client : String → Io net.Net c.State

-- `math/rand/v2`: the generators of a client and how they are seeded.
pub record Sources (g : Rng) : Type 0 where
  pub new_pcg : ℕ → ℕ → g.Seed
  pub uint64 : g.Seed → ℕ × g.Seed
  pub new_cha_cha8 : List ℕ → g.Seed

-- The 32 bytes that seed a client's reader.
unfoldable pub cha_cha_seed : ℕ → List ℕ
cha_cha_seed v = put_uint64 v ++ replicate 24 0

-- A panic of the harness, where there is no value.
abbrev pub or_panic {ℓ} : {A : Type ℓ} → Option A → Result A
or_panic (some a) = ok a
or_panic none = stuck

module _ (net : Network) (c : Client) (f : RpcFactory net c) where
  pub record ServerHarness : Type 0 where
    pub s : f.Server
    pub addr : String

  unfoldable pub new_server_harness : Io net.Net (ServerHarness)
  new_server_harness = do
    l ← net.listen
    s ← λ n. (f.new_server l, n)
    pure (record { s = s; addr = net.address l })

  module _ (g : Rng) (src : Sources g) where
    -- The client with the index `i` over a connection.
    unfoldable pub new_bench_client : ℕ → c.State → Result (BenchClient c g)
    new_bench_client i conn =
        let (v, rng) = src.uint64 (src.new_pcg 0x01020304 i) in
        or_panic (new_client g c conn (src.new_cha_cha8 (cha_cha_seed v)) rng)

    -- The loop of `newClientHarness` from the index `i` on, with `left` clients to go.
    unfoldable pub new_clients : String → (i left : ℕ) → Io net.Net (List (BenchClient c g))
    new_clients saddr i zero = pure []
    new_clients saddr i (suc left) = do
      conn ← f.new_rpc_client saddr
      b ← λ n. (new_bench_client i conn, n)
      bs ← new_clients saddr (suc i) left
      pure (b ∷ bs)

    unfoldable pub new_client_harness : String → ℕ → Io net.Net (List (BenchClient c g))
    new_client_harness saddr nb_clients = new_clients saddr 0 nb_clients

    -- Both harnesses, as both kinds of run set them up.
    unfoldable pub set_up : ℕ → Io net.Net (List (BenchClient c g))
    set_up nb_clients = do sh ← new_server_harness; new_client_harness sh.addr nb_clients

    -- `ch.clients[0]`
    unfoldable pub first_client : List (BenchClient c g) → Result (BenchClient c g)
    first_client [] = stuck
    first_client (b ∷ bs) = ok b

    unfoldable pub run_sequential_case : ClientCall → (rounds : ℕ) → Io net.Net ℕ
    run_sequential_case call rounds = do
      bs ← set_up 1
      b ← λ n. (first_client bs, n)
      λ n. (run_sequential_bench c g rounds call b, n)

    -- What `RunCase` may come to from a network `n`: the bytes per operation that it reports, or the
    -- error that it returns. `procs` is `GOMAXPROCS`, and `rounds` how often `b.Loop()` is true, or
    -- `p.Next()` in all workers together, which are interleaved in any way.
    pub data Reports (n : net.Net) (call : ClientCall) (procs rounds : ℕ) (r : Result ℕ)
        : (parallel : Bool) → Type 0 where
      sequential : (run_sequential_case call rounds n).0 ≡ r → Reports n call procs rounds r false
      not_set_up :
          {e : Error} {n' : net.Net}
          → set_up procs n ≡ (err e, n')
          → err e ≡ r
          → Reports n call procs rounds r true
      totalled :
          {bs : List (BenchClient c g)} {n' : net.Net} {j : ℕ} {ts : List Totals} {sum : Totals}
          → set_up procs n ≡ (ok bs, n')
          → Steps c g call procs j (init c g call procs rounds bs) (collecting ts 0 sum)
          → set_bytes sum ≡ r
          → Reports n call procs rounds r true
