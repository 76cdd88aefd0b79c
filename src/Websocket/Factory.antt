-- ===== src/Websocket/Factory.antt =====
-- internal/rpc/websocket/ws_factory.go, with `newWSServer` and `ServeHTTP` of ws_server.go and
-- `newWSClient` of ws_client.go; and the cases of the benchmark over the binary system.
use gorpcbench.Prelude.{
  ℕ, ◌*◌, ◌<◌, ◌≡◌, refl, Bool, true, false, String, List, [], ◌∷◌, if◌then◌else◌, ◌↔◌,
}
use text.Mathlib.Text.{◌==◌}
use gorpcbench.Go.Int64.{IsCount}
use gorpcbench.Go.Errors.{Result, ok, err, stuck}
use gorpcbench.Go.Io.{Io, pure, ◌>>=◌}
use gorpcbench.Rpcbench.Tree.{zero_node}
use gorpcbench.Rpcbench.Limits.{max_hex_encode_size}
use gorpcbench.Rpcbench.Rng.{Rng}
use gorpcbench.Rpcbench.Calls.{ClientCall}
use gorpcbench.Rpcbench.Calls.Runs.{call_bytes}
use gorpcbench.Rpcbench.RunCase.{Network, RpcFactory, Sources, Reports}
use gorpcbench.Rpcbench.RunCase.Reported.{IsUp, Dials, Dials-IsUp, run_case_lem}
use gorpcbench.Websocket.Session.{Line, State, ws_client}
use gorpcbench.Websocket.Session.Correct.{IsReady, ws_client-IsCorrect}

abbrev pub Header : Type 0
Header = List (String × String)

-- `Header.Get`, which is "" for a name that is missing.
abbrev pub get_header : String → Header → String
get_header name [] = ""
get_header name ((k, v) ∷ rest) = if k == name then v else get_header name rest

-- The header that `newWSClient` dials with.
unfoldable pub dial_header : Bool → Header
dial_header is_json = if is_json then ("Content-Type", "text/json") ∷ [] else []

-- What the connection's loop returns, or nothing where there is no connection. Nothing is logged,
-- since `skipLog` is set, and so nobody sees the result.
module _ {Conn : Type 0} (run_json run_binary : Conn → Result (Unit {0})) where
  unfoldable pub serve_http : (upgraded : Result Conn) → Header → Result (Unit {0})
  serve_http (ok conn) header =
      if get_header "Content-Type" header == "text/json" then run_json conn else run_binary conn
  serve_http (err e) header = ok tt
  serve_http stuck header = stuck

  -- The server reads a connection in the encoding that its client was made for: the client says so
  -- in the header that it dials with, and says nothing for the binary one.
  pub serve_http-dial_header :
      (is_json : Bool) (conn : Conn)
      → serve_http (ok conn) (dial_header is_json)
        ≡ (if is_json then run_json conn else run_binary conn)
  unfolding serve_http dial_header
  serve_http-dial_header true conn = refl
  serve_http-dial_header false conn = refl

module _ (net : Network) where
  pub record WsServer : Type 0 where
    pub l : net.Listener
    pub skip_log : Bool
    pub buffer_sizes : ℕ × ℕ

  unfoldable pub new_ws_server : net.Listener → WsServer
  new_ws_server l = record {
    l = l;
    skip_log = true;
    buffer_sizes = (max_hex_encode_size * 2, max_hex_encode_size * 2);
  }

  -- `dial` is `websocket.DefaultDialer.DialContext`; the address is that of the url `ws://addr`.
  module _ (grant : ℕ → ℕ) (dial : Header → String → Io net.Net Line) where
    unfoldable pub new_ws_client : Bool → String → Io net.Net State
    new_ws_client is_json addr = do
      conn ← dial (dial_header is_json) addr
      pure (record { line = conn; tree = zero_node })

    -- `wsFactory{}`; the one with `isJson` set makes its clients in the same way.
    unfoldable pub ws_factory : RpcFactory net (ws_client grant)
    ws_factory = record {
      Server = WsServer;
      new_server = λ l. ok (new_ws_server l);
      new_rpc_client = new_ws_client false;
    }

    abbrev pub IsFresh : Line → Type 0
    IsFresh l = l ≡ record { answers = []; running = true }

    ws_factory-IsUp :
        (Up : net.Net → Type 0)
        → Dials net (dial []) IsFresh Up
        → IsUp net (ws_client grant) ws_factory IsReady Up
    unfolding ws_factory new_ws_client dial_header
    ws_factory-IsUp Up =
        Dials-IsUp net (ws_client grant) ws_factory IsReady Up (dial []) IsFresh
          (λ line. record { line = line; tree = zero_node }) (λ line fresh. fresh)
          (λ l. (new_ws_server l, refl)) (λ addr. refl)

    -- Over a network that dials new connections, every case of the binary websocket system reports
    -- the bytes of one call and no error.
    pub ws_case_lem :
        (Up : net.Net → Type 0) (g : Rng) (src : Sources g) (parallel : Bool) (call : ClientCall)
        (procs rounds : ℕ) (n : net.Net) (r : Result ℕ)
        → Dials net (dial []) IsFresh Up
        → Up n
        → 0 < procs
        → 0 < rounds
        → IsCount rounds
        → IsCount (rounds * call_bytes call)
        → Reports net (ws_client grant) ws_factory g src n call procs rounds r parallel
          ↔ (r ≡ ok (call_bytes call))
    ws_case_lem Up g src parallel call procs rounds n r dials h some_procs pos few small =
        run_case_lem net (ws_client grant) ws_factory g src IsReady Up (ws_factory-IsUp Up dials)
          (λ v h. tt) (ws_client-IsCorrect grant) parallel call procs rounds n r h some_procs pos
          few small
