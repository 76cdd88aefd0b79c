-- ===== src/Websocket/Json/Client.antt =====
-- internal/rpc/websocket/ws_client.go: the calls where `isJson` is set.
use gorpcbench.Prelude.{ℕ, List, []}
use gorpcbench.Go.Errors.{formatted, Result, ok, err, stuck}
use gorpcbench.Go.Io.{Io, pure, map_error, ◌>>=◌, ◌>>◌}
use gorpcbench.Go.Copy.{copy}
use gorpcbench.Rpcbench.Tree.{TreeNodeImpl, reset}
use gorpcbench.Jsonutils.{
  cmd_nop, cmd_add, cmd_mult_tree, cmd_to_hex, AddResponse, Message, Payload, nothing, to_add,
  to_mult, to_encode, Json,
}
use gorpcbench.Websocket.Json.{TextSocket}

module _ (j : Json) (w : TextSocket j.Doc) where
  -- `out n` is what the caller's buffer of length `n` holds before a call of `ToHex`. Both fields
  -- of `outMsg` are set before every use, so it is left out.
  pub record State : Type 0 where
    pub line : w.Line
    pub tree : TreeNodeImpl
    pub msg : Message j.Doc
    pub out : ℕ → List ℕ

  abbrev pub write_json : ℕ → Payload → Io State (Unit {0})
  write_json command p s =
      let (r, l) =
        w.write_doc (j.marshal_out_message (record { command = command; payload = p })) s.line in
      (r, record s { line = l })

  abbrev pub receive : Io State j.Doc
  receive s = let (r, l) = w.read_doc s.line in (r, record s { line = l })

  abbrev pub store_msg : j.Doc → Io State (Unit {0})
  store_msg d s = let (r, m) = j.unmarshal_message d s.msg in (r, record s { msg = m })

  abbrev pub store_tree : j.Doc → Io State (Unit {0})
  store_tree d s = let (r, t) = j.unmarshal_tree d s.tree in (r, record s { tree = t })

  -- A value that `r` leaves in a variable, or its error.
  abbrev pub loaded {ℓ} : {A : Type ℓ} → Result (Unit {0}) × A → Result A
  loaded (ok x, a) = ok a
  loaded (err e, a) = err e
  loaded (stuck, a) = stuck

  abbrev pub read_sum : j.Doc → Io State AddResponse
  read_sum d s = (loaded (j.unmarshal_add_response d (record { res = 0 })), s)

  abbrev pub read_bytes : j.Doc → Io State (List ℕ)
  read_bytes d s = (loaded (j.unmarshal_bytes d []), s)

  unfoldable pub nop : Io State (Unit {0})
  nop = do
    map_error (formatted "unable to write JSON nop") (write_json cmd_nop nothing)
    map_error (formatted "unable to read JSON nop") (do d ← receive; store_msg d)

  unfoldable pub add : ℕ → ℕ → Io State ℕ
  add a b = do
    map_error (formatted "unable to write JSON add")
        (write_json cmd_add (to_add (record { a = a; b = b })))
    r ← map_error (formatted "unable to read JSON add") (do d ← receive; read_sum d)
    pure r.res

  abbrev pub set_tree : (TreeNodeImpl → TreeNodeImpl) → Io State (Unit {0})
  set_tree f s = (ok tt, record s { tree = f s.tree })

  abbrev pub send_tree : ℕ → Io State (Unit {0})
  send_tree m s = write_json cmd_mult_tree (to_mult m s.tree) s

  abbrev pub the_tree : Io State TreeNodeImpl
  the_tree s = (ok s.tree, s)

  -- The tree that is returned is the client's own, which the answer is read into.
  unfoldable pub mult_tree_values : ℕ → (TreeNodeImpl → TreeNodeImpl) → Io State TreeNodeImpl
  mult_tree_values m fill_args = do
    set_tree reset
    set_tree fill_args
    map_error (formatted "unable to write JSON tree") (send_tree m)
    set_tree reset
    map_error (formatted "unable to read JSON tree") (do d ← receive; store_tree d)
    the_tree

  unfoldable pub to_hex : List ℕ → ℕ → Io State (List ℕ)
  to_hex input n s =
      (do
        map_error (formatted "unable to write JSON hex") (write_json cmd_to_hex (to_encode input))
        hex_out ← map_error (formatted "unable to read JSON hex") (do d ← receive; read_bytes d)
        pure (copy (s.out n) hex_out))
        s
