-- ===== src/Rpcbench/RunCase/Reported.antt =====
-- What a case reports over a system that is up.
use mathlib.Core.Path.{subst}
use gorpcbench.Prelude.{
  ℕ, zero, suc, ◌*◌, ◌≤◌, ◌<◌, ◌≡◌, refl, sym, ◌∙◌, arith, Bool, true, false, String, List, [], ◌∷◌,
  length, All, ◌↔◌,
}
use gorpcbench.Go.Int64.{IsCount}
use gorpcbench.Go.Errors.{Result, ok, err, stuck}
use gorpcbench.Go.Io.{Io, pure, ◌>>=◌}
use gorpcbench.Rpcbench.Values.{Tree, size}
use gorpcbench.Rpcbench.Client.{Client, IsCorrect}
use gorpcbench.Rpcbench.Rng.{Rng}
use gorpcbench.Rpcbench.Calls.{ClientCall, BenchClient}
use gorpcbench.Rpcbench.Calls.Runs.{IsValid, call_bytes}
use gorpcbench.Rpcbench.Setup.Valid.{most_nodes, new_client-IsValid}
use gorpcbench.Rpcbench.Bench.{Totals, set_bytes}
use gorpcbench.Rpcbench.Bench.Reports.{run_sequential_bench_lem}
use gorpcbench.Rpcbench.Bench.Parallel.{collecting, Steps, stop, init}
use gorpcbench.Rpcbench.Bench.Parallel.Completes.{parallel_run_completes}
use gorpcbench.Rpcbench.Bench.Parallel.Results.{parallel_run_reports}
use gorpcbench.Rpcbench.RunCase.{
  Network, RpcFactory, Sources, cha_cha_seed, new_server_harness, new_bench_client, new_clients,
  new_client_harness, set_up, first_client, run_sequential_case, Reports, sequential, not_set_up,
  totalled,
}

-- A network on which the system can listen, serve and be dialled.
pub record IsUp (net : Network) (c : Client) (f : RpcFactory net c) (Ready : c.State → Type 0)
    (Up : net.Net → Type 0) : Type 0 where
  pub listens :
      (n : net.Net)
      → Up n
      → (l : net.Listener) × (n' : net.Net) × (net.listen n ≡ (ok l, n')) × Up n'
  pub serves : (l : net.Listener) → (s : f.Server) × (f.new_server l ≡ ok s)
  pub connects :
      (saddr : String) (n : net.Net)
      → Up n
      → (conn : c.State) × (n' : net.Net) × (f.new_rpc_client saddr n ≡ (ok conn, n'))
        × Ready conn
        × Up n'

-- A network that listens, and on which `dial` makes connections that are fresh.
pub record Dials (net : Network) {X : Type 0} (dial : String → Io net.Net X) (Fresh : X → Type 0)
    (Up : net.Net → Type 0) : Type 0 where
  pub listens :
      (n : net.Net)
      → Up n
      → (l : net.Listener) × (n' : net.Net) × (net.listen n ≡ (ok l, n')) × Up n'
  pub dials :
      (addr : String) (n : net.Net)
      → Up n
      → (x : X) × (n' : net.Net) × (dial addr n ≡ (ok x, n')) × Fresh x × Up n'

module _ (net : Network) (c : Client) (f : RpcFactory net c) (Ready : c.State → Type 0)
    (Up : net.Net → Type 0) where
  -- A factory whose servers are bound to any listener, and whose clients are made of what is dialled.
  pub Dials-IsUp :
      {X : Type 0} (dial : String → Io net.Net X) (Fresh : X → Type 0) (make : X → c.State)
      → ((x : X) → Fresh x → Ready (make x))
      → ((l : net.Listener) → (s : f.Server) × (f.new_server l ≡ ok s))
      → ((addr : String) → f.new_rpc_client addr ≡ (do x ← dial addr; pure (make x)))
      → Dials net dial Fresh Up
      → IsUp net c f Ready Up
  Dials-IsUp dial Fresh make ready serves made h = record {
    listens = h.listens;
    serves = serves;
    connects = λ addr n up.
        let (x, n', e, fresh, up') = h.dials addr n up in
        (make x, n', rw (made addr, e) refl, ready x fresh, up');
  }

only :
    {B : Type 0} (P : B → Type 0) (bs : List B)
    → length bs ≡ 1
    → All P bs
    → (b : B) × (bs ≡ b ∷ []) × P b
only P [] l h = absurd (omega (arith, l))
only P (b ∷ []) l (h, hs) = (b, refl, h)
only P (b ∷ b' ∷ bs) l h = absurd (omega (arith, l))

AllOk : {B : Type 0} → (B → Type 0) → Result (List B) → Type 0
AllOk P (ok bs) = All P bs
AllOk P (err e) = Unit
AllOk P stuck = Unit

IsOk : {A : Type 0} → Result A → Type 0
IsOk (ok a) = Unit
IsOk (err e) = ⊥
IsOk stuck = ⊥

module _ (net : Network) (c : Client) (f : RpcFactory net c) (g : Rng) (src : Sources g)
    (Ready : c.State → Type 0) (Up : net.Net → Type 0) (up : IsUp net c f Ready Up)
    (allows : (v : Tree) → size v ≤ most_nodes → c.Allows v) where
  Clients : ℕ → List (BenchClient c g) → Type 0
  Clients k bs = (length bs ≡ k) × All (IsValid c g Ready) bs

  new_bench_client-IsValid :
      (i : ℕ) (conn : c.State)
      → Ready conn
      → (b : BenchClient c g) × (new_bench_client net c f g src i conn ≡ ok b) × IsValid c g Ready b
  unfolding new_bench_client
  new_bench_client-IsValid i conn ready =
      let (v, rng) = src.uint64 (src.new_pcg 0x01020304 i) in
      let (b, e, valid) =
        new_client-IsValid c g Ready conn (src.new_cha_cha8 (cha_cha_seed v)) rng allows ready in
      (b, rw e refl, valid)

  new_clients-IsValid :
      (saddr : String) (i k : ℕ) (n : net.Net)
      → Up n
      → (bs : List (BenchClient c g)) × (n' : net.Net) × (new_clients net c f g src saddr i k n
          ≡ (ok bs, n'))
        × Clients k bs
  unfolding new_clients Clients
  new_clients-IsValid saddr i zero n h = ([], n, refl, (refl, tt))
  new_clients-IsValid saddr i (suc k) n h =
      let (conn, n1, e, ready, h1) = up.connects saddr n h in
      let (b, eb, valid) = new_bench_client-IsValid i conn ready in
      let (bs, n2, es, (l, valids)) = new_clients-IsValid saddr (suc i) k n1 h1 in
      (b ∷ bs, n2, rw (e, eb, es) refl, (omega (arith, l), (valid, valids)))

  -- On a network on which the system is up, both harnesses are set up without an error: the server
  -- is bound to a listener, and every client that was asked for is valid.
  pub set_up-IsValid :
      (k : ℕ) (n : net.Net)
      → Up n
      → (bs : List (BenchClient c g)) × (n' : net.Net) × (set_up net c f g src k n ≡ (ok bs, n'))
        × (length bs ≡ k)
        × All (IsValid c g Ready) bs
  unfolding set_up new_server_harness new_client_harness Clients
  set_up-IsValid k n h =
      let (l, n1, e, h1) = up.listens n h in
      let (s, es) = up.serves l in
      let (bs, n2, ebs, (len, valid)) = new_clients-IsValid (net.address l) 0 k n1 h1 in
      (bs, n2, rw (e, es, ebs) refl, len, valid)

  module _ (right : IsCorrect c Ready) where
    -- The workers of as many valid clients come to their end.
    some_run :
        (call : ClientCall) (k rounds : ℕ) (bs : List (BenchClient c g))
        → length bs ≡ k
        → 0 < k
        → 0 < rounds
        → IsCount rounds
        → IsCount (rounds * call_bytes call)
        → All (IsValid c g Ready) bs
        → (j : ℕ) × (ts : List Totals) × (sum : Totals) × Steps c g call k j
            (init c g call k rounds bs)
            (collecting ts 0 sum)
          × (set_bytes sum ≡ ok (call_bytes call))
    some_run call k rounds bs l some_procs pos few small valid =
        subst
          (λ k.
            (j : ℕ) × (ts : List Totals) × (sum : Totals) × Steps c g call k j
              (init c g call k rounds bs) (collecting ts 0 sum)
            × (set_bytes sum ≡ ok (call_bytes call)))
          l
          (parallel_run_completes c g Ready right call rounds 0 bs
            (init c g call (length bs) rounds bs) (omega (arith, l)) pos few small valid stop)

    run_case-Reports :
        (parallel : Bool) (call : ClientCall) (procs rounds : ℕ) (n : net.Net)
        → Up n
        → 0 < procs
        → 0 < rounds
        → IsCount rounds
        → IsCount (rounds * call_bytes call)
        → Reports net c f g src n call procs rounds (ok (call_bytes call)) parallel
    unfolding run_sequential_case first_client
    run_case-Reports false call procs rounds n h some_procs pos few small =
        let (bs, n', e, l, valid) = set_up-IsValid 1 n h in
        let (b, one, v) = only (IsValid c g Ready) bs l valid in
        sequential
          (rw (e, one) (run_sequential_bench_lem c g Ready right rounds call b v pos few small))
    run_case-Reports true call procs rounds n h some_procs pos few small =
        let (bs, n', e, l, valid) = set_up-IsValid procs n h in
        let (j, ts, sum, steps, same) =
          some_run call procs rounds bs l some_procs pos few small valid in
        totalled e steps same

    only-Reports :
        (parallel : Bool) (call : ClientCall) (procs rounds : ℕ) (n : net.Net) (r : Result ℕ)
        → Up n
        → 0 < procs
        → 0 < rounds
        → IsCount rounds
        → IsCount (rounds * call_bytes call)
        → Reports net c f g src n call procs rounds r parallel
        → r ≡ ok (call_bytes call)
    unfolding run_sequential_case first_client AllOk IsOk
    only-Reports false call procs rounds n r h some_procs pos few small (sequential same) =
        let (bs, n', e, l, valid) = set_up-IsValid 1 n h in
        let (b, one, v) = only (IsValid c g Ready) bs l valid in
        sym same
        ∙ rw (e, one) (run_sequential_bench_lem c g Ready right rounds call b v pos few small)
    only-Reports true call procs rounds n r h some_procs pos few small (not_set_up failed same) =
        let (bs, n', e, l, valid) = set_up-IsValid procs n h in
        absurd (subst (λ q. IsOk q.0) (sym e ∙ failed) tt)
    only-Reports true call procs rounds n r h some_procs pos few small
          (totalled {bs} {n'} {j} {ts} {sum} up_again steps same) =
        let (bs', n1, e, l, valid) = set_up-IsValid procs n h in
        sym same
        ∙ parallel_run_reports c g Ready right call procs rounds j bs ts sum some_procs pos few
            small (subst (λ q. AllOk (IsValid c g Ready) q.0) (sym e ∙ up_again) valid) steps

    -- Every case over a correct system that is up, and takes every tree of up to 87381 nodes,
    -- reports the bytes of one call, and can report nothing else: a sequential one over its one
    -- client, and a parallel one over `procs` clients, however its workers are interleaved. There is
    -- at least one client, at least one iteration is made, and neither the number of calls nor that
    -- of the bytes reaches 2 ^ 63.
    pub run_case_lem :
        (parallel : Bool) (call : ClientCall) (procs rounds : ℕ) (n : net.Net) (r : Result ℕ)
        → Up n
        → 0 < procs
        → 0 < rounds
        → IsCount rounds
        → IsCount (rounds * call_bytes call)
        → Reports net c f g src n call procs rounds r parallel ↔ (r ≡ ok (call_bytes call))
    run_case_lem parallel call procs rounds n r h some_procs pos few small = (
      only-Reports parallel call procs rounds n r h some_procs pos few small,
      λ e.
          subst (λ q. Reports net c f g src n call procs rounds q parallel) (sym e)
            (run_case-Reports parallel call procs rounds n h some_procs pos few small),
    )
