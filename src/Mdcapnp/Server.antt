-- ===== src/Mdcapnp/Server.antt =====
-- internal/rpc/mdcapnp/mdcp_server.go: `multTree`, the handlers, and `Call`, which selects one.
pub mod Trees
pub mod Calls
use gorpcbench.Prelude.{ℕ, zero, suc, ◌*◌, ◌==◌, if◌then◌else◌, List, length}
use gorpcbench.Go.Int64.{add64, mul64}
use gorpcbench.Go.Errors.{text, formatted, Result, ok, err, stuck}
use gorpcbench.Go.Results.{◌>>=◌, ◌>>◌}
use gorpcbench.Go.Loops.{each_pair}
use gorpcbench.Go.Hex.{encode}
use gorpcbench.Mdcapnp.Ser.{StructSize, Ser}
use gorpcbench.Mdcapnp.Api.{
  interface_id, nop_method_id, add_method_id, to_hex_method_id, mult_tree_method_id,
  add_response_size, hex_response_size, tree_node_size, TreeNodeBuilder, a, b, set_c, data_of,
  new_hex_data, mult, tree, value, children, set_value, new_children,
}

module _ (w : Ser) where
  -- `rpc.CallContext`: the identifiers, the parameters as a struct, and the struct that a response
  -- gets, each of which may fail to be there.
  pub record CallContext : Type 0 where
    pub interface_id : ℕ
    pub method_id : ℕ
    pub params : Result w.Struct
    pub respond : (z : StructSize) → Result (w.Builder z)

  -- The results that a call has once its handler has returned.
  pub data Answer : Type 0 where
    no_results : Answer
    results : w.Struct → Answer

  -- The error of `SetC` is not looked at.
  unfoldable pub handle_add : CallContext → Result Answer
  handle_add cc = do
    req ← cc.params
    res ← cc.respond add_response_size
    ok (results (w.reader (set_c w (add64 (a w req) (b w req)) res).1))

  abbrev pub put_children :
      TreeNodeBuilder w
      → Result (Unit {0}) × List (TreeNodeBuilder w)
      → Result (Unit {0}) × TreeNodeBuilder w
  put_children out (r, bs) = (r, w.with_list tree_node_size 0 bs out)

  abbrev pub mult_into :
      (w.Struct → TreeNodeBuilder w → Result (Unit {0}) × TreeNodeBuilder w)
      → List w.Struct
      → Result (List (TreeNodeBuilder w)) × TreeNodeBuilder w
      → Result (Unit {0}) × TreeNodeBuilder w
  mult_into f ts (ok bs, out) = put_children out (each_pair f ts bs)
  mult_into f ts (err e, out) = (err e, out)
  mult_into f ts (stuck, out) = (stuck, out)

  abbrev pub mult_below :
      (w.Struct → TreeNodeBuilder w → Result (Unit {0}) × TreeNodeBuilder w)
      → Result (List w.Struct)
      → TreeNodeBuilder w
      → Result (Unit {0}) × TreeNodeBuilder w
  mult_below f (ok ts) out = mult_into f ts (new_children w (length ts) (length ts) out)
  mult_below f (err e) out = (err (formatted "errored getting inChildren" e), out)
  mult_below f stuck out = (stuck, out)

  -- It recurs through the nodes of a message, so it runs on fuel.
  unfoldable pub mult_tree :
      ℕ → ℕ → w.Struct → TreeNodeBuilder w → Result (Unit {0}) × TreeNodeBuilder w
  mult_tree zero m t out = (stuck, out)
  mult_tree (suc fuel) m t out =
      mult_below (mult_tree fuel m) (children w t) (set_value w (mul64 (value w t) m) out).1

  abbrev pub multiplied : Result (Unit {0}) × TreeNodeBuilder w → Result Answer
  multiplied (r, out) = do r; ok (results (w.reader out))

  unfoldable pub handle_mult_tree : ℕ → CallContext → Result Answer
  handle_mult_tree fuel cc = do
    req ← cc.params
    in_tree ← tree w req
    res ← cc.respond tree_node_size
    multiplied (mult_tree fuel (mult w req) (w.depth_limit 100 in_tree) res)

  -- The blob of the response, which the hex form of the input is written into.
  abbrev pub encoded : List ℕ → Result (List ℕ) × w.Builder hex_response_size → Result Answer
  encoded input (r, res) = do r; ok (results (w.reader (w.with_data 0 (encode input) res)))

  unfoldable pub handle_to_hex : CallContext → Result Answer
  handle_to_hex cc = do
    req ← cc.params
    res ← cc.respond hex_response_size
    encoded (data_of w req) (new_hex_data w (length (data_of w req) * 2) res)

  abbrev pub call_method : ℕ → ℕ → CallContext → Result Answer
  call_method fuel method cc =
      if method == nop_method_id
      then ok no_results
      else if method == add_method_id
      then handle_add cc
      else if method == mult_tree_method_id
      then handle_mult_tree fuel cc
      else if method == to_hex_method_id
      then handle_to_hex cc
      else err (text "unimplemented method")

  unfoldable pub call : ℕ → CallContext → Result Answer
  call fuel cc =
      if cc.interface_id == interface_id
      then call_method fuel cc.method_id cc
      else err (text "wrong interfaceId")
