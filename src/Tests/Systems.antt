-- ===== src/Tests/Systems.antt =====
-- A benchmark over the TCP system, and gRPC over a line that hands every call to its handler.
use gorpcbench.Prelude.{Bool, false, some, ℕ, ◌≡◌, refl, arith, List, [], ◌∷◌, ◌↔◌, true}
use gorpcbench.Go.Errors.{Result, ok, err, stuck, wrapped, canceled}
use gorpcbench.Go.Hex.{decode}
use gorpcbench.Rpcbench.Values.{scale, size}
use gorpcbench.Rpcbench.Tree.{TreeNodeImpl}
use gorpcbench.Rpcbench.Tree.View
use gorpcbench.Rpcbench.Tree.Nodes.{impl_reader}
use gorpcbench.Rpcbench.TreeNode.{StandsFor}
use gorpcbench.Rpcbench.Client.{IsCorrect}
use gorpcbench.Rpcbench.Calls.{
  add, tree_mult, to_hex, BenchClient, check_tree, check_hex, make_call,
}
use gorpcbench.Rpcbench.Calls.Checks.{hex_bytes, check_tree_iff, check_hex_iff}
use gorpcbench.Rpcbench.Calls.Runs.{call_bytes, IsValid, make_call_lem}
use gorpcbench.Rpcbench.Bench.{BenchCase, tcp}
use gorpcbench.Rpcbench.Setup.{new_client}
use gorpcbench.Rpcbench.Setup.Valid.{new_client-IsValid}
use gorpcbench.Tcp.Run.{Picks}
use gorpcbench.Tcp.Link.{IsIdle}
use gorpcbench.Tcp.Session.{Session, tcp_client}
use gorpcbench.Tcp.Session
use gorpcbench.Tcp.Session.Correct.{tcp_client-IsCorrect}
use gorpcbench.Grpc.Tree.{TreeNode, node, nil, cons, end}
use gorpcbench.Grpc.Api.{Transport, serve_add, serve_mult_tree, serve_to_hex}
use gorpcbench.Grpc.Api.Correct.{Delivers, IsReady}
use gorpcbench.Http1.Server.{serve}
use gorpcbench.Http1.Client
use gorpcbench.Http1.Client.{http1_client}
use gorpcbench.Http1.Client.Correct
use gorpcbench.Http1.Client.Correct.{request, http1_client-IsCorrect}
use gorpcbench.Tests.{counting, slow, small, doubled}

pub slow-IsIdle : IsIdle slow
slow-IsIdle = record { is_healthy = refl; none_pending = refl; none_buffered = refl }

abbrev pub session : Session
session = record { near = slow; tree = small; far = slow }

session-IsReady : Session.IsReady session
session-IsReady = record { near_idle = slow-IsIdle; far_idle = slow-IsIdle }

abbrev pub bench_client : BenchClient tcp_client counting
bench_client = record { state = session; rng = 5; reader = 7; trees = small ∷ []; chosen = 0 }

pub bench_client-IsValid : IsValid tcp_client counting Session.IsReady bench_client
bench_client-IsValid = record {
  ready = session-IsReady;
  some_tree = omega arith;
  fits = ((unfold View.view size in omega arith, tt), tt);
}

make_call_lem_example :
    (b : BenchClient tcp_client counting) × (make_call tcp_client counting tree_mult bench_client
      ≡ (ok (call_bytes tree_mult), b))
    × IsValid tcp_client counting Session.IsReady b
make_call_lem_example =
    make_call_lem tcp_client counting Session.IsReady tcp_client-IsCorrect tree_mult bench_client
      bench_client-IsValid

new_client-IsValid_example :
    (b : BenchClient tcp_client counting) × (new_client counting tcp_client session 7 5 ≡ some b)
    × IsValid tcp_client counting Session.IsReady b
new_client-IsValid_example =
    new_client-IsValid tcp_client counting Session.IsReady session 7 5 (λ v h. tt) session-IsReady

call_bytes-to_hex : call_bytes to_hex ≡ 393216
unfolding call_bytes
call_bytes-to_hex = refl

check_tree_iff_example : (check_tree tcp_client counting small 2 (ok doubled) ≡ ok 0) ↔ (
    (u : TreeNodeImpl) × (◌≡◌ {A = Result TreeNodeImpl} (ok doubled) (ok u))
    × StandsFor impl_reader u (scale 2 (View.view small)))
check_tree_iff_example = check_tree_iff tcp_client counting small 2 (ok doubled)

check_hex_iff_example :
    (check_hex tcp_client counting (171 ∷ []) (ok (97 ∷ 98 ∷ [])) ≡ ok hex_bytes) ↔ (
      (out : List ℕ) × (◌≡◌ {A = Result (List ℕ)} (ok (97 ∷ 98 ∷ [])) (ok out))
      × (decode out ≡ ok (171 ∷ [])))
check_hex_iff_example = check_hex_iff tcp_client counting (171 ∷ []) (ok (97 ∷ 98 ∷ []))

abbrev tcp_adds : BenchCase
tcp_adds = record { sys = tcp; call = add; parallel = true }

-- A line on which nothing is lost.
abbrev direct : Transport
direct = record {
  Line = Unit;
  call_nop = λ l. (ok tt, l);
  call_add = λ r l. (ok (serve_add r), l);
  call_mult_tree = λ r l. (ok (serve_mult_tree r), l);
  call_to_hex = λ bs l. (ok (serve_to_hex bs), l);
}

abbrev small_message : TreeNode
small_message = node 2 (cons (node 3 nil end) (cons (node 5 nil end) nil)) end

abbrev pub first_error : List (Result (Unit {0})) → Result (Unit {0})
first_error [] = ok tt
first_error (ok x ∷ rs) = first_error rs
first_error (err e ∷ rs) = err e
first_error (stuck ∷ rs) = stuck

pub first_error-Picks : Picks first_error
first_error-Picks P [] base all = base
first_error-Picks P (ok x ∷ rs) base (h, hs) = first_error-Picks P rs base hs
first_error-Picks P (err e ∷ rs) base (h, hs) = h
first_error-Picks P (stuck ∷ rs) base (h, hs) = h

-- How connections end: by themselves, or with the context.
abbrev conn_end : Bool → Result (Unit {0})
conn_end true = ok tt
conn_end false = err (wrapped "read" canceled)

-- A pool whose requests reach the server one byte at a time.
abbrev one_by_one : Client.Transport
one_by_one = record {
  Pool = Unit;
  get = λ path p. (ok (serve (request (λ n. 1) path "" [])), p);
  post = λ path content_type body p. (ok (serve (request (λ n. 1) path content_type body)), p);
}

one_by_one-Delivers : Correct.Delivers one_by_one (λ p. Unit)
one_by_one-Delivers = record {
  get_delivers = λ path p live. ((λ n. 1), p, refl, tt);
  post_delivers = λ path content_type body p live. ((λ n. 1), p, refl, tt);
}

http1_client-IsCorrect_example :
    IsCorrect (http1_client one_by_one) (Correct.IsReady one_by_one (λ p. Unit) one_by_one-Delivers)
http1_client-IsCorrect_example = http1_client-IsCorrect one_by_one (λ p. Unit) one_by_one-Delivers
