-- ===== src/Tcp/Factory.antt =====
-- internal/rpc/tcp/tcp_factory.go, with `newTCPServer` of tcp_server.go and `newTCPClient` of
-- tcp_client.go; and the cases of the benchmark over this system.
use gorpcbench.Prelude.{ℕ, ◌*◌, ◌<◌, ◌≡◌, refl, Bool, true, String, ◌↔◌}
use gorpcbench.Go.Int64.{IsCount}
use gorpcbench.Go.Errors.{Result, ok}
use gorpcbench.Go.Io.{Io, pure, ◌>>=◌}
use gorpcbench.Go.Conn.{Conn}
use gorpcbench.Rpcbench.Tree.{zero_node}
use gorpcbench.Rpcbench.Rng.{Rng}
use gorpcbench.Rpcbench.Calls.{ClientCall}
use gorpcbench.Rpcbench.Calls.Runs.{call_bytes}
use gorpcbench.Rpcbench.RunCase.{Network, RpcFactory, Sources, Reports}
use gorpcbench.Rpcbench.RunCase.Reported.{IsUp, Dials, Dials-IsUp, run_case_lem}
use gorpcbench.Tcp.Link.{IsIdle}
use gorpcbench.Tcp.Session.{Session, IsReady, tcp_client}
use gorpcbench.Tcp.Session.Correct.{tcp_client-IsCorrect}

module _ (net : Network) where
  -- `skip_log` is set: the server writes no log.
  pub record TcpServer : Type 0 where
    pub l : net.Listener
    pub skip_log : Bool

  unfoldable pub new_tcp_server : net.Listener → TcpServer
  new_tcp_server l = record { l = l; skip_log = true }

  -- `dial` is `DialContext`; it comes with the end of the connection that the server accepts.
  module _ (dial : String → Io net.Net (Conn × Conn)) where
    unfoldable pub new_tcp_client : String → Io net.Net Session
    new_tcp_client addr = do
      (near, far) ← dial addr
      pure (record { near = near; tree = zero_node; far = far })

    unfoldable pub tcp_factory : RpcFactory net tcp_client
    tcp_factory = record {
      Server = TcpServer;
      new_server = λ l. ok (new_tcp_server l);
      new_rpc_client = new_tcp_client;
    }

    abbrev pub BothIdle : Conn × Conn → Type 0
    BothIdle (near, far) = IsIdle near × IsIdle far

    abbrev open_session : Conn × Conn → Session
    open_session (near, far) = record { near = near; tree = zero_node; far = far }

    open_session-IsReady : (ends : Conn × Conn) → BothIdle ends → IsReady (open_session ends)
    open_session-IsReady (near, far) (near_idle, far_idle) = record {
      near_idle = near_idle;
      far_idle = far_idle;
    }

    pub tcp_factory-IsUp :
        (Up : net.Net → Type 0)
        → Dials net dial BothIdle Up
        → IsUp net tcp_client tcp_factory IsReady Up
    unfolding tcp_factory new_tcp_client
    tcp_factory-IsUp Up =
        Dials-IsUp net tcp_client tcp_factory IsReady Up dial BothIdle open_session
          open_session-IsReady (λ l. (new_tcp_server l, refl)) (λ addr. refl)

    -- Over a network that dials connections with nothing in flight, every case of the TCP system
    -- reports the bytes of one call, and can report nothing else: sequential, or parallel with its
    -- workers interleaved in any way, for each of the four calls, from the listener to the last
    -- answer. There is at least one client, at least one iteration is made, and neither the number of
    -- calls nor that of the bytes reaches 2 ^ 63.
    pub tcp_case_lem :
        (Up : net.Net → Type 0) (g : Rng) (src : Sources g) (parallel : Bool) (call : ClientCall)
        (procs rounds : ℕ) (n : net.Net) (r : Result ℕ)
        → Dials net dial BothIdle Up
        → Up n
        → 0 < procs
        → 0 < rounds
        → IsCount rounds
        → IsCount (rounds * call_bytes call)
        → Reports net tcp_client tcp_factory g src n call procs rounds r parallel
          ↔ (r ≡ ok (call_bytes call))
    tcp_case_lem Up g src parallel call procs rounds n r dials h some_procs pos few small =
        run_case_lem net tcp_client tcp_factory g src IsReady Up (tcp_factory-IsUp Up dials)
          (λ v h. tt) tcp_client-IsCorrect parallel call procs rounds n r h some_procs pos few small
