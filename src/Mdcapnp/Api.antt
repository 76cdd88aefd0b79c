-- ===== src/Mdcapnp/Api.antt =====
-- internal/rpc/mdcapnp/handwritten_api.go: the fields of the requests, the responses and the nodes.
use gorpcbench.Prelude.{ℕ, List}
use gorpcbench.Go.Errors.{Result}
use gorpcbench.Mdcapnp.Ser.{StructSize, Ser}

abbrev pub interface_id : ℕ
interface_id = 94237

abbrev pub nop_method_id : ℕ
nop_method_id = 1

abbrev pub add_method_id : ℕ
add_method_id = 2

abbrev pub to_hex_method_id : ℕ
to_hex_method_id = 3

abbrev pub mult_tree_method_id : ℕ
mult_tree_method_id = 4

abbrev pub add_request_size : StructSize
add_request_size = record { data_section_size = 2; pointer_section_size = 0 }

abbrev pub hex_request_size : StructSize
hex_request_size = record { data_section_size = 0; pointer_section_size = 1 }

abbrev pub mult_tree_request_size : StructSize
mult_tree_request_size = record { data_section_size = 1; pointer_section_size = 1 }

abbrev pub add_response_size : StructSize
add_response_size = record { data_section_size = 1; pointer_section_size = 0 }

abbrev pub hex_response_size : StructSize
hex_response_size = record { data_section_size = 0; pointer_section_size = 1 }

abbrev pub tree_node_size : StructSize
tree_node_size = record { data_section_size = 1; pointer_section_size = 1 }

module _ (w : Ser) where
  abbrev pub TreeNodeBuilder : Type 0
  TreeNodeBuilder = w.Builder tree_node_size

  -- `addRequest` and its builder
  unfoldable pub set_a :
      ℕ → w.Builder add_request_size → Result (Unit {0}) × w.Builder add_request_size
  set_a v req = w.set_int64 0 v req

  unfoldable pub set_b :
      ℕ → w.Builder add_request_size → Result (Unit {0}) × w.Builder add_request_size
  set_b v req = w.set_int64 1 v req

  unfoldable pub a : w.Struct → ℕ
  a s = w.int64 0 s

  unfoldable pub b : w.Struct → ℕ
  b s = w.int64 1 s

  -- `addResponse`
  unfoldable pub set_c :
      ℕ → w.Builder add_response_size → Result (Unit {0}) × w.Builder add_response_size
  set_c v res = w.set_int64 0 v res

  unfoldable pub c : w.Struct → ℕ
  c s = w.int64 0 s

  -- `hexRequest` and `hexResponse`
  unfoldable pub set_data :
      List ℕ → w.Builder hex_request_size → Result (Unit {0}) × w.Builder hex_request_size
  set_data bs req = w.set_data 0 bs req

  unfoldable pub data_of : w.Struct → List ℕ
  data_of s = w.data_at 0 s

  unfoldable pub new_hex_data :
      ℕ → w.Builder hex_response_size → Result (List ℕ) × w.Builder hex_response_size
  new_hex_data n res = w.new_data 0 n res

  unfoldable pub hex_data : w.Struct → List ℕ
  hex_data s = w.data_at 0 s

  -- `multTreeRequest` and its builder
  unfoldable pub set_mult :
      ℕ → w.Builder mult_tree_request_size → Result (Unit {0}) × w.Builder mult_tree_request_size
  set_mult v req = w.set_int64 0 v req

  unfoldable pub new_tree :
      w.Builder mult_tree_request_size → Result TreeNodeBuilder × w.Builder mult_tree_request_size
  new_tree req = w.new_struct tree_node_size 0 req

  unfoldable pub mult : w.Struct → ℕ
  mult s = w.int64 0 s

  unfoldable pub tree : w.Struct → Result w.Struct
  tree s = w.struct_at 0 s

  -- `treeNode` and its builder
  unfoldable pub value : w.Struct → ℕ
  value s = w.int64 0 s

  unfoldable pub children : w.Struct → Result (List w.Struct)
  children s = w.struct_list 0 s

  unfoldable pub set_value : ℕ → TreeNodeBuilder → Result (Unit {0}) × TreeNodeBuilder
  set_value v t = w.set_int64 0 v t

  unfoldable pub new_children :
      ℕ → ℕ → TreeNodeBuilder → Result (List TreeNodeBuilder) × TreeNodeBuilder
  new_children n cap t = w.new_list tree_node_size 0 n cap t
