-- ===== src/Http1/Factory.antt =====
-- internal/rpc/http1/http1_factory.go, with `newHttp1Client` of http1_client.go and `newHttp1Server`
-- of http1_server.go; and the cases of the benchmark over this system.
use gorpcbench.Prelude.{
  ℕ, ◌*◌, ◌<◌, ◌≡◌, refl, Bool, true, String, List, [], ◌∷◌, if◌then◌else◌, ◌↔◌,
}
use text.Mathlib.Text.{◌==◌}
use gorpcbench.Go.Int64.{IsCount}
use gorpcbench.Go.Errors.{Result, ok}
use gorpcbench.Go.Io.{Io, pure}
use gorpcbench.Rpcbench.Tree.{zero_node}
use gorpcbench.Rpcbench.Rng.{Rng}
use gorpcbench.Rpcbench.Calls.{ClientCall}
use gorpcbench.Rpcbench.Calls.Runs.{call_bytes}
use gorpcbench.Rpcbench.RunCase.{Network, RpcFactory, Sources, Reports}
use gorpcbench.Rpcbench.RunCase.Reported.{IsUp, Dials, run_case_lem}
use gorpcbench.Http1.Server.{
  Request, Response, empty_response, serve, handle_nop, handle_add, handle_mult_tree, handle_to_hex,
}
use gorpcbench.Http1.Client.{Transport, State, http1_client}
use gorpcbench.Http1.Client.Correct.{Delivers, IsReady, http1_client-IsCorrect}

module _ (net : Network) where
  pub record Http1Server : Type 0 where
    pub l : net.Listener
    pub skip_log : Bool
    pub mux : List (String × (Request → Response))

  unfoldable pub new_http1_server : net.Listener → Http1Server
  new_http1_server l = record {
    l = l;
    skip_log = true;
    mux =
        ("/nop", handle_nop)
        ∷ ("/add", handle_add)
        ∷ ("/multTree", handle_mult_tree)
        ∷ ("/toHex", handle_to_hex)
        ∷ [];
  }

  -- Making a client dials nothing: `client_for` is the new `http.Client`, for the paths at an address.
  -- `grant` says how the bodies of responses arrive.
  module _ (w : Transport) (client_for : String → w.Pool) (grant : ℕ → ℕ) where
    unfoldable pub new_http1_client : String → Io net.Net (State w)
    new_http1_client addr = pure (record { hc = client_for addr; tree = zero_node; grant = grant })

    unfoldable pub http1_factory : RpcFactory net (http1_client w)
    http1_factory = record {
      Server = Http1Server;
      new_server = λ l. ok (new_http1_server l);
      new_rpc_client = new_http1_client;
    }

    http1_factory-IsUp :
        (Live : w.Pool → Type 0) (delivers : Delivers w Live) (Up : net.Net → Type 0)
        → Dials net new_http1_client (λ s. Live s.hc) Up
        → IsUp net (http1_client w) http1_factory (IsReady w Live delivers) Up
    unfolding http1_factory
    http1_factory-IsUp Live delivers Up h = record {
      listens = h.listens;
      serves = λ l. (new_http1_server l, refl);
      connects = h.dials;
    }

    -- Over a network that listens and a transport that delivers, every case of the HTTP system reports the bytes of one call and no
    -- error.
    pub http1_case_lem :
        (Live : w.Pool → Type 0) (delivers : Delivers w Live) (Up : net.Net → Type 0) (g : Rng)
        (src : Sources g) (parallel : Bool) (call : ClientCall) (procs rounds : ℕ) (n : net.Net)
        (r : Result ℕ)
        → Dials net new_http1_client (λ s. Live s.hc) Up
        → Up n
        → 0 < procs
        → 0 < rounds
        → IsCount rounds
        → IsCount (rounds * call_bytes call)
        → Reports net (http1_client w) http1_factory g src n call procs rounds r parallel
          ↔ (r ≡ ok (call_bytes call))
    http1_case_lem Live delivers Up g src parallel call procs rounds n r dials h some_procs pos few
          small =
        run_case_lem net (http1_client w) http1_factory g src (IsReady w Live delivers) Up
          (http1_factory-IsUp Live delivers Up dials) (λ v h. tt)
          (http1_client-IsCorrect w Live delivers) parallel call procs rounds n r h some_procs pos
          few small

-- `ServeMux.ServeHTTP` for patterns that are paths without a slash at the end.
abbrev pub mux_serve : List (String × (Request → Response)) → Request → Response
mux_serve [] r = empty_response 404
mux_serve ((pattern, handle) ∷ rest) r = if r.path == pattern then handle r else mux_serve rest r

-- The server answers a request by the handler that it has registered for the request's path.
pub mux_serve-new_http1_server :
    (net : Network) (l : net.Listener) (r : Request)
    → mux_serve (new_http1_server net l).mux r ≡ serve r
unfolding new_http1_server serve
mux_serve-new_http1_server net l r = refl
