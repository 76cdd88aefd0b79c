-- ===== src/Websocket/Json.antt =====
-- internal/rpc/websocket/ws_server.go, `runJsonConn`.
pub mod Client
pub mod Session
pub mod Factory
pub mod Rounds
pub mod Correct
use gorpcbench.Prelude.{
  ℕ, zero, suc, ◌*◌, leb, ◌==◌, if◌then◌else◌, List, Option, some, none, length,
}
use gorpcbench.Go.Int64.{add64}
use gorpcbench.Go.Errors.{text, Result, ok, err, stuck}
use gorpcbench.Go.Io.{Io, pure, raise, ◌>>=◌, ◌>>◌}
use gorpcbench.Go.Hex.{encode}
use gorpcbench.Rpcbench.Limits.{max_hex_encode_size}
use gorpcbench.Rpcbench.Tree.{TreeNodeImpl, mult}
use gorpcbench.Jsonutils.{
  cmd_nop, cmd_add, cmd_mult_tree, cmd_to_hex, AddRequest, MultTreeRequest, Message, Json,
}

-- Messages of JSON text on a connection, as `ReadJSON` and `WriteJSON` of gorilla/websocket read
-- and write them. A read fails too where the text is no JSON value.
pub record TextSocket (Doc : Type 0) : Type 1 where
  pub Line : Type 0
  pub read_doc : Line → Result Doc × Line
  pub write_doc : Doc → Line → Result (Unit {0}) × Line

module _ (j : Json) where
  -- The variables outside the loop, which a message is read into. Those that are written before
  -- they are read are left out.
  pub record Memory : Type 0 where
    pub msg : Message j.Doc
    pub add_req : AddRequest
    pub mult_req : MultTreeRequest
    pub hex_in : List ℕ

  module _ (w : TextSocket j.Doc) where
    abbrev pub Server : Type 0
    Server = Memory × w.Line

    abbrev pub receive : Io Server j.Doc
    receive (s, l) = let (r, l') = w.read_doc l in (r, (s, l'))

    abbrev pub send : j.Doc → Io Server (Unit {0})
    send d (s, l) = let (r, l') = w.write_doc d l in (r, (s, l'))

    -- `json.Unmarshal` of a nil payload fails.
    abbrev pub or_raise : Option j.Doc → Io Server j.Doc
    or_raise (some d) = pure d
    or_raise none = raise (text "unexpected end of JSON input")

    abbrev pub raw : Io Server j.Doc
    raw (s, l) = or_raise s.msg.payload (s, l)

    abbrev pub store_msg : j.Doc → Io Server (Unit {0})
    store_msg d (s, l) = let (r, m) = j.unmarshal_message d s.msg in (r, (record s { msg = m }, l))

    abbrev pub store_add_req : j.Doc → Io Server (Unit {0})
    store_add_req d (s, l) =
        let (r, q) = j.unmarshal_add_request d s.add_req in (r, (record s { add_req = q }, l))

    abbrev pub store_mult_req : j.Doc → Io Server (Unit {0})
    store_mult_req d (s, l) =
        let (r, q) = j.unmarshal_request d s.mult_req in (r, (record s { mult_req = q }, l))

    abbrev pub store_hex_in : j.Doc → Io Server (Unit {0})
    store_hex_in d (s, l) =
        let (r, bs) = j.unmarshal_bytes d s.hex_in in (r, (record s { hex_in = bs }, l))

    unfoldable pub serve_nop : Io Server (Unit {0})
    serve_nop (s, l) = send (j.marshal_message s.msg) (s, l)

    abbrev pub answer_sum : Io Server (Unit {0})
    answer_sum (s, l) =
        send (j.marshal_add_response (record { res = add64 s.add_req.a s.add_req.b })) (s, l)

    unfoldable pub serve_add : Io Server (Unit {0})
    serve_add = do d ← raw; store_add_req d; answer_sum

    -- `Mult` of a nil tree panics.
    abbrev pub answer_mult : Option TreeNodeImpl → Io Server (Unit {0})
    answer_mult (some t) (s, l) =
        let t' = mult s.mult_req.mult t in
        let q : MultTreeRequest = record { mult = s.mult_req.mult; tree = some t' } in
        send (j.marshal_tree t') (record s { mult_req = q }, l)
    answer_mult none c = (stuck, c)

    abbrev pub answer_tree : Io Server (Unit {0})
    answer_tree (s, l) = answer_mult s.mult_req.tree (s, l)

    unfoldable pub serve_mult_tree : Io Server (Unit {0})
    serve_mult_tree = do d ← raw; store_mult_req d; answer_tree

    -- `hex.Encode` into the buffer panics where the buffer is too short.
    abbrev pub answer_hex : Io Server (Unit {0})
    answer_hex (s, l) =
        if leb (length s.hex_in * 2) (max_hex_encode_size * 2)
        then send (j.marshal_bytes (encode s.hex_in)) (s, l)
        else (stuck, (s, l))

    unfoldable pub serve_to_hex : Io Server (Unit {0})
    serve_to_hex = do d ← raw; store_hex_in d; answer_hex

    unfoldable pub serve_command : ℕ → Io Server (Unit {0})
    serve_command command =
        if command == cmd_nop
        then serve_nop
        else if command == cmd_add
        then serve_add
        else if command == cmd_mult_tree
        then serve_mult_tree
        else if command == cmd_to_hex
        then serve_to_hex
        else pure tt

    abbrev pub serve_msg : Io Server (Unit {0})
    serve_msg (s, l) = serve_command s.msg.command (s, l)

    -- The body of the loop, which ends by an error only.
    unfoldable pub round : Io Server (Unit {0})
    round = do d ← receive; store_msg d; serve_msg

    unfoldable pub run_json_conn : ℕ → Io Server (Unit {0})
    run_json_conn zero c = (stuck, c)
    run_json_conn (suc fuel) c = (do round; run_json_conn fuel) c
