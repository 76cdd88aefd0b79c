-- ===== src/Http1/Client.antt =====
-- internal/rpc/http1/http1_client.go. `newHttp1Client` never sets `isJson`. A call makes a request
-- through `net/http`, which is a parameter, and reads the body of the response; no call looks at the
-- status.
pub mod Correct
use gorpcbench.Rpcbench.TreeNode.{StandsFor}
use gorpcbench.Prelude.{ℕ, List, [], ◌∷◌, ◌++◌, String}
use gorpcbench.Go.Errors.{eof, formatted, Result, ok, err, stuck}
use gorpcbench.Go.Io.{Io, pure, with_error, ◌>>=◌, ◌>>◌}
use gorpcbench.Go.Conn.{Conn, healthy, read_full}
use gorpcbench.Rpcbench.Tree.{TreeNodeImpl, reset}
use gorpcbench.Rpcbench.Tree.Nodes.{tree_node_impl, impl_reader}
use gorpcbench.Rpcbench.Client.{Client}
use gorpcbench.Binutils.{read_int64, write_int64, write_mult_tree_request, read_mult_tree_response}
use gorpcbench.Http1.Server.{Response}

-- A buffer that is being written, or a body that is being read.
abbrev pub buffer : (ℕ → ℕ) → List ℕ → Conn
buffer grant bs = record {
  pending = bs;
  grant = grant;
  last = eof;
  buffered = [];
  sent = [];
  health = healthy;
}

-- An `http.Client` of package net/http with its connections to a server: `Get` and `Post` with the
-- path of the URL. A response of any status is no error.
pub record Transport : Type 1 where
  pub Pool : Type 0
  pub get : String → Io Pool Response
  pub post : (path content_type : String) (body : List ℕ) → Io Pool Response

-- The rest of a call, which needs the response.
abbrev pub on_response {ℓ} : {A : Type ℓ} → (Response → Result A) → Result Response → Result A
on_response read (ok x) = read x
on_response read (err e) = err e
on_response read stuck = stuck

unfoldable pub add_body : ℕ → ℕ → Io Conn (Unit {0})
add_body a b = do write_int64 a; write_int64 b

module _ (w : Transport) where
  -- The `http.Client`, the client's tree, and how the bodies of responses arrive.
  pub record State : Type 0 where
    pub hc : w.Pool
    pub tree : TreeNodeImpl
    pub grant : ℕ → ℕ

  unfoldable pub nop : State → Result (Unit {0}) × State
  nop s = let (r, hc) = w.get "/nop" s.hc in (on_response (λ x. ok tt) r, record s { hc = hc })

  -- The request with the two numbers is posted, once it is written.
  abbrev pub ask_sum : State → Result (Unit {0}) × Conn → Result ℕ × State
  ask_sum s (ok x, c) =
      let (r, hc) = w.post "/add" "application/octet-stream" c.buffered s.hc in
      (on_response (λ x. (read_int64 (buffer s.grant x.body)).0) r, record s { hc = hc })
  ask_sum s (err e, c) = (err e, s)
  ask_sum s (stuck, c) = (stuck, s)

  unfoldable pub add : ℕ → ℕ → State → Result ℕ × State
  add a b s = ask_sum s (add_body a b (buffer s.grant []))

  abbrev pub tree_answer :
      Result (Unit {0}) × TreeNodeImpl × Conn → State → Result TreeNodeImpl × State
  tree_answer (ok x, t, c) s = (ok t, record s { tree = t })
  tree_answer (err e, t, c) s =
      (err (formatted "error reading reply from server" e), record s { tree = t })
  tree_answer (stuck, t, c) s = (stuck, record s { tree = t })

  abbrev pub read_tree_answer : TreeNodeImpl → State → Result Response → Result TreeNodeImpl × State
  read_tree_answer t s (ok x) = tree_answer (read_mult_tree_response t (buffer s.grant x.body)) s
  read_tree_answer t s (err e) = (err e, record s { tree = t })
  read_tree_answer t s stuck = (stuck, record s { tree = t })

  abbrev pub ask_tree :
      TreeNodeImpl → State → Result (Unit {0}) × Conn → Result TreeNodeImpl × State
  ask_tree t s (ok x, c) =
      let (r, hc) = w.post "/multTree" "application/octet-stream" c.buffered s.hc in
      read_tree_answer t (record s { hc = hc }) r
  ask_tree t s (err e, c) = (err e, record s { tree = t })
  ask_tree t s (stuck, c) = (stuck, record s { tree = t })

  unfoldable pub mult_tree_values :
      ℕ → (TreeNodeImpl → TreeNodeImpl) → State → Result TreeNodeImpl × State
  mult_tree_values m fill_args s =
      let t = fill_args (reset s.tree) in
      ask_tree t s (write_mult_tree_request m t (buffer s.grant []))

  unfoldable pub to_hex : List ℕ → ℕ → State → Result (List ℕ) × State
  to_hex input n s =
      let (r, hc) = w.post "/toHex" "application/octet-stream" input s.hc in
      (on_response (λ x. (read_full n (buffer s.grant x.body)).0) r, record s { hc = hc })

  abbrev pub http1_client : Client
  http1_client = record {
    State = State;
    Args = TreeNodeImpl;
    Res = TreeNodeImpl;
    args = tree_node_impl;
    res = impl_reader;
    Allows = λ v. Unit;
    Filled = StandsFor impl_reader;
    nop = nop;
    add = add;
    mult_tree_values = mult_tree_values;
    to_hex = to_hex;
  }
