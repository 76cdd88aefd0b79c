-- ===== src/Websocket/Json/Factory.antt =====
-- internal/rpc/websocket/ws_factory.go with `isJson` set; and the cases of the benchmark over the JSON
-- system.
use gorpcbench.Prelude.{
  ℕ, ◌*◌, ◌≤◌, ◌<◌, ◌≡◌, refl, Bool, true, String, none, replicate, length-replicate, ◌↔◌,
}
use gorpcbench.Go.Int64.{IsCount}
use gorpcbench.Go.Errors.{Result, ok}
use gorpcbench.Go.Io.{Io, pure, ◌>>=◌}
use gorpcbench.Rpcbench.Values.{Tree, size}
use gorpcbench.Rpcbench.Tree.{zero_node}
use gorpcbench.Rpcbench.Rng.{Rng}
use gorpcbench.Rpcbench.Calls.{ClientCall}
use gorpcbench.Rpcbench.Calls.Runs.{call_bytes}
use gorpcbench.Rpcbench.Setup.Valid.{most_nodes}
use gorpcbench.Rpcbench.RunCase.{Network, RpcFactory, Sources, Reports}
use gorpcbench.Rpcbench.RunCase.Reported.{IsUp, Dials, Dials-IsUp, run_case_lem}
use gorpcbench.Jsonutils.{Json}
use gorpcbench.Websocket.Factory.{Header, dial_header, WsServer, new_ws_server}
use gorpcbench.Websocket.Json.{Memory}
use gorpcbench.Websocket.Json.Client.{State}
use gorpcbench.Websocket.Json.Rounds.{idle}
use gorpcbench.Websocket.Json.Session.{Line, linked, json_client}
use gorpcbench.Jsonutils.{ReadsBack}
use gorpcbench.Websocket.Json.Correct.{IsReady, json_client-IsCorrect}

module _ (net : Network) (j : Json) (Allowed : Tree → Type 0) where
  module _ (dial : Header → String → Io net.Net (Line j)) where
    -- `out n` is the caller's buffer of `n` bytes, which is made of zeros.
    abbrev pub json_state : Line j → State j (linked j)
    json_state line = record {
      line = line;
      tree = zero_node;
      msg = record { command = 0; payload = none };
      out = λ n. replicate n 0;
    }

    unfoldable pub new_json_client : String → Io net.Net (State j (linked j))
    new_json_client addr = do conn ← dial (dial_header true) addr; pure (json_state conn)

    unfoldable pub json_factory : RpcFactory net (json_client j Allowed)
    json_factory = record {
      Server = WsServer net;
      new_server = λ l. ok (new_ws_server net l);
      new_rpc_client = new_json_client;
    }

    abbrev pub IsFresh : Line j → Type 0
    IsFresh line = (m : Memory j) × (line ≡ idle j m)

    json_factory-IsUp :
        (Up : net.Net → Type 0)
        → Dials net (dial (dial_header true)) IsFresh Up
        → IsUp net (json_client j Allowed) json_factory (IsReady j) Up
    unfolding json_factory new_json_client
    json_factory-IsUp Up =
        Dials-IsUp net (json_client j Allowed) json_factory (IsReady j) Up (dial (dial_header true))
          IsFresh json_state
          (λ line (m, fresh). record {
            memory = m;
            is_idle = fresh;
            length_out = λ k. length-replicate k 0;
          })
          (λ l. (new_ws_server net l, refl)) (λ addr. refl)

    -- Over a network that dials new connections, every case of the JSON websocket system reports the
    -- bytes of one call and no error, when `encoding/json` reads back what it wrote and allows every
    -- tree of up to 87381 nodes.
    pub json_case_lem :
        (Up : net.Net → Type 0) (g : Rng) (src : Sources g) (parallel : Bool) (call : ClientCall)
        (procs rounds : ℕ) (n : net.Net) (r : Result ℕ)
        → ReadsBack j Allowed
        → ((v : Tree) → size v ≤ most_nodes → Allowed v)
        → Dials net (dial (dial_header true)) IsFresh Up
        → Up n
        → 0 < procs
        → 0 < rounds
        → IsCount rounds
        → IsCount (rounds * call_bytes call)
        → Reports net (json_client j Allowed) json_factory g src n call procs rounds r parallel
          ↔ (r ≡ ok (call_bytes call))
    json_case_lem Up g src parallel call procs rounds n r laws may dials h some_procs pos few
          small =
        run_case_lem net (json_client j Allowed) json_factory g src (IsReady j) Up
          (json_factory-IsUp Up dials) may (json_client-IsCorrect j Allowed laws) parallel call
          procs rounds n r h some_procs pos few small
