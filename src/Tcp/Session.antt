-- ===== src/Tcp/Session.antt =====
-- The client of the TCP system with the server at the other end, as a client of the benchmark:
-- internal/rpc/tcp/tcp_client.go joined to internal/rpc/tcp/tcp_server.go.
pub mod Correct
use gorpcbench.Rpcbench.TreeNode.{StandsFor}
use gorpcbench.Prelude.{
  ℕ, ◌*◌, ◌%◌, ◌^◌, ◌<◌, ◌≡◌, refl, sym, ap, ◌∙◌, arith, List, [], ◌∷◌, ◌++◌, length, append-nil,
  true,
}
use gorpcbench.Go.Int64.{IsInt64, IsCount, add64, add64-IsInt64}
use gorpcbench.Go.Errors.{Result, ok, err, stuck}
use gorpcbench.Go.Binary.{IsByte, put_uint64}
use gorpcbench.Go.Hex.{encode, length-encode}
use gorpcbench.Go.Conn.{Conn, feed, wrote, flushed}
use gorpcbench.Rpcbench.Limits.{max_hex_encode_size}
use gorpcbench.Rpcbench.Values.{
  Tree, preorder, preorder-scale, preorder-InRange, length-preorder, SameShape, scale, size,
  InRange, scale-SameShape, scale-InRange,
}
use gorpcbench.Rpcbench.Tree.{TreeNodeImpl, total_nodes, reset}
use gorpcbench.Rpcbench.Tree.View.{view, total_nodes-size}
use gorpcbench.Rpcbench.Tree.Nodes.{tree_node_impl, impl_reader}
use gorpcbench.Rpcbench.Client.{Client, IsCorrect, Fills}
use gorpcbench.Binutils.Numbers.{words}
use gorpcbench.Binutils.Requests.{scaled}
use gorpcbench.Tcp.Protocol.{cmd_nop, cmd_mult_tree}
use gorpcbench.Tcp.Server.{round}
use gorpcbench.Tcp.Server.Rounds.{round_nop, round_add, round_mult_tree, round_to_hex}
use gorpcbench.Tcp.Link.{IsIdle, exchange, exchange_lem, after-IsIdle}
use gorpcbench.Tcp.Client.{nop, add, mult_tree_values, to_hex}
use gorpcbench.Tcp.Client.Calls.{
  nop_request, add_request, tree_request, hex_request, nop_run, add_run, mult_tree_values_run,
  to_hex_run,
}
use gorpcbench.Tcp.Client.Sends.{nop_sends, add_sends, send_tree_sends, to_hex_sends}

-- A client's connection and tree, and the server's end of the connection.
pub record Session : Type 0 where
  pub near : Conn
  pub tree : TreeNodeImpl
  pub far : Conn

pub record IsReady (s : Session) : Type 0 where
  pub near_idle : IsIdle s.near
  pub far_idle : IsIdle s.far

-- A call that leaves the client's tree alone.
pub call {ℓ} : {A : Type ℓ} → (Conn → Result A × Conn) → Session → Result A × Session
call op s =
    let (r, (k, f)) = exchange op round (s.near, s.far) in (r, record s { near = k; far = f })

abbrev pub result_tree : Result (Unit {0}) → TreeNodeImpl → Result TreeNodeImpl
result_tree (ok x) t = ok t
result_tree (err e) t = err e
result_tree stuck t = stuck

pub call_tree : ℕ → (TreeNodeImpl → TreeNodeImpl) → Session → Result TreeNodeImpl × Session
call_tree m fill s =
    let (r, (k, f)) = exchange (mult_tree_values m fill s.tree) round (s.near, s.far) in
    (result_tree r.0 r.1, record { near = k; tree = r.1; far = f })

abbrev pub tcp_client : Client
tcp_client = record {
  State = Session;
  Args = TreeNodeImpl;
  Res = TreeNodeImpl;
  args = tree_node_impl;
  res = impl_reader;
  Allows = λ v. Unit;
  Filled = StandsFor impl_reader;
  nop = call nop;
  add = λ a b. call (add a b);
  mult_tree_values = call_tree;
  to_hex = λ bs n. call (to_hex bs n);
}
