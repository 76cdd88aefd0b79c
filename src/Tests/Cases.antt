-- ===== src/Tests/Cases.antt =====
-- Whole cases over a network in one piece, the end of a server, and requests and headers as they come.
use gorpcbench.Prelude.{
  ◌+◌, ◌≡◌, refl, arith, true, false, String, [], ◌∷◌, ◌↔◌, leb, if◌then◌else◌, length, take, drop,
  none, some,
}
use gorpcbench.Go.Int64.{add64}
use gorpcbench.Go.Errors.{net_closed, canceled, Result, ok, err, wrapped}
use gorpcbench.Go.Binary.{put_uint64, uint64}
use gorpcbench.Go.Conn.{Conn}
use gorpcbench.Rpcbench.Calls.{nop, to_hex}
use gorpcbench.Rpcbench.Calls.Runs.{call_bytes}
use gorpcbench.Rpcbench.RunCase.{Network, Sources, Reports}
use gorpcbench.Rpcbench.RunCase.Reported.{Dials, run_case_lem}
use gorpcbench.Rpcbench.RunCase.CleanUp.{
  returned, nothing, finish, harness_clean_up, harness_clean_up_iff,
}
use gorpcbench.Tcp.Session.{tcp_client}
use gorpcbench.Tcp.Session
use gorpcbench.Tcp.Session.Correct.{tcp_client-IsCorrect}
use gorpcbench.Tcp.Factory.{tcp_factory, tcp_factory-IsUp, BothIdle, tcp_case_lem}
use gorpcbench.Gocapnp.Run.{conn_done, ctx_done}
use gorpcbench.Shutdown.{gocapnp, run_server, shutdown_reports_nothing}
use gorpcbench.Http1.Server.{Request, empty_response, is_json, handle_add}
use gorpcbench.Http1.Server.Replies.{ok_response}
use gorpcbench.Http1.Server.Errors.{handle_add_total}
use gorpcbench.Tests.{counting, slow}
use gorpcbench.Tests.Systems.{slow-IsIdle, first_error, first_error-Picks}

abbrev loopback : Network
loopback = record {
  Listener = Unit;
  Net = Unit;
  listen = λ n. (ok tt, n);
  address = λ l. "127.0.0.1:0";
}

abbrev dial_slow : String → Unit {0} → Result (Conn × Conn) × Unit {0}
dial_slow addr n = (ok (slow, slow), n)

dial_slow-Dials : Dials loopback dial_slow (BothIdle loopback dial_slow) (λ n. Unit)
dial_slow-Dials = record {
  listens = λ n up. (tt, tt, refl, tt);
  dials = λ addr n up. ((slow, slow), tt, refl, (slow-IsIdle, slow-IsIdle), tt);
}

abbrev seeds : Sources counting
seeds = record { new_pcg = λ a i. a + i; uint64 = λ s. (s, s + 1); new_cha_cha8 = λ bs. uint64 bs }

tcp_case_lem_example :
    Reports loopback tcp_client
      (tcp_factory loopback dial_slow)
      counting
      seeds
      tt
      to_hex
      4
      1000
      (ok (call_bytes to_hex))
      true
    ↔ (ok (call_bytes to_hex) ≡ ok (call_bytes to_hex))
tcp_case_lem_example =
    tcp_case_lem loopback dial_slow (λ n. Unit) counting seeds true to_hex 4 1000 tt
      (ok (call_bytes to_hex)) dial_slow-Dials tt (omega arith) (omega arith) (omega arith)
      (unfold call_bytes in omega arith)

run_case_lem_example :
    Reports loopback tcp_client
      (tcp_factory loopback dial_slow)
      counting
      seeds
      tt
      nop
      1
      1000
      (ok 3)
      false
    ↔ (ok 3 ≡ ok (call_bytes nop))
run_case_lem_example =
    run_case_lem loopback tcp_client (tcp_factory loopback dial_slow) counting seeds Session.IsReady
      (λ n. Unit) (tcp_factory-IsUp loopback dial_slow (λ n. Unit) dial_slow-Dials) (λ v h. tt)
      tcp_client-IsCorrect false nop 1 1000 tt (ok 3) tt (omega arith) (omega arith) (omega arith)
      (unfold call_bytes in omega arith)

harness_clean_up_iff_example :
    (harness_clean_up (returned (some canceled)) ≡ nothing)
    ↔ (returned (some canceled) ≡ returned none)
harness_clean_up_iff_example = harness_clean_up_iff (returned (some canceled))

shutdown_reports_nothing_example :
    harness_clean_up (
      finish (
        run_server first_error (
          gocapnp (ok tt) (conn_done ∷ ctx_done (err (wrapped "close" canceled)) ∷ []) net_closed)))
    ≡ nothing
shutdown_reports_nothing_example =
    shutdown_reports_nothing first_error
      (gocapnp (ok tt) (conn_done ∷ ctx_done (err (wrapped "close" canceled)) ∷ []) net_closed)
      first_error-Picks (tt, refl, (tt, (refl, tt)))

-- A body that is one byte too short.
abbrev short_add : Request
short_add = record {
  path = "/add";
  content_type = "application/octet-stream";
  body = 1 ∷ 0 ∷ 0 ∷ 0 ∷ 0 ∷ 0 ∷ 0 ∷ 0 ∷ 2 ∷ 0 ∷ 0 ∷ 0 ∷ 0 ∷ 0 ∷ 0 ∷ [];
  grant = λ n. n;
  duplex = ok tt;
}

handle_add_total_example : handle_add short_add ≡ (
    if is_json short_add
    then empty_response 400
    else if leb 16 (length short_add.body)
    then ok_response (
        put_uint64
          (add64 (uint64 (take 8 short_add.body)) (uint64 (take 8 (drop 8 short_add.body)))))
    else empty_response 400)
handle_add_total_example = handle_add_total short_add
