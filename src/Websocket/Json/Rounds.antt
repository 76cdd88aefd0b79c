-- ===== src/Websocket/Json/Rounds.antt =====
-- One round of the server's loop on the message of each call.
use gorpcbench.Prelude.{
  le→leb, ℕ, ◌*◌, ◌≤◌, ◌↔◌, ◌≡◌, refl, ap, ◌∙◌, arith, List, [], ◌∷◌, length, All, true, some,
}
use gorpcbench.Go.Errors.{ok}
use gorpcbench.Go.Int64.{IsInt64, add64}
use gorpcbench.Go.Binary.{IsByte}
use gorpcbench.Go.Hex.{encode}
use gorpcbench.Rpcbench.Limits.{max_hex_encode_size}
use gorpcbench.Rpcbench.Values.{Tree, scale, InRange}
use gorpcbench.Rpcbench.Tree.{TreeNodeImpl, mult}
use gorpcbench.Rpcbench.Tree.View.{view, view-mult}
use gorpcbench.Jsonutils.{
  cmd_nop, cmd_add, cmd_mult_tree, cmd_to_hex, AddRequest, Message, Payload, nothing, to_add,
  to_mult, to_encode, OutMessage, Json, ReadsBack,
}
use gorpcbench.Websocket.Json.{
  Memory, round, serve_command, serve_nop, serve_add, serve_mult_tree, serve_to_hex,
}
use gorpcbench.Websocket.Json.Session.{Mail, mailbox, Line, deliver}

module _ (j : Json) where
  abbrev pub idle : Memory j → Line j
  idle s = record { answers = []; memory = s; running = true }

  abbrev pub one_answer : j.Doc → Memory j → Line j
  one_answer d s = record { answers = d ∷ []; memory = s; running = true }

  abbrev pub out : ℕ → Payload → OutMessage
  out command p = record { command = command; payload = p }

  abbrev pub hex_mail : List ℕ → Mail j
  hex_mail bs = (j.marshal_out_message (out cmd_to_hex (to_encode bs)) ∷ [], [])

  module _ (Allowed : Tree → Type 0) (laws : ReadsBack j Allowed) where
    pub nop_round :
        (s : Memory j)
        → (m : Message j.Doc) × (s' : Memory j) × (deliver j
              (j.marshal_out_message (out cmd_nop nothing))
              (idle s)
            ≡ one_answer (j.marshal_message m) s')
    unfolding deliver round serve_command serve_nop
    nop_round s =
        let m : Message j.Doc = record { command = cmd_nop; payload = s.msg.payload } in
        (m, record s { msg = m }, rw (laws.out_message (out cmd_nop nothing) s.msg tt) refl)

    pub add_round :
        (a b : ℕ) (s : Memory j)
        → IsInt64 a
        → IsInt64 b
        → (s' : Memory j) × (deliver j
              (j.marshal_out_message (out cmd_add (to_add (record { a = a; b = b }))))
              (idle s)
            ≡ one_answer (j.marshal_add_response (record { res = add64 a b })) s')
    unfolding deliver round serve_command serve_add
    add_round a b s ha hb =
        let r : AddRequest = record { a = a; b = b } in
        let m : Message j.Doc = record {
          command = cmd_add;
          payload = some (j.marshal_add_request r);
        } in
        (
          record s { msg = m; add_req = r },
          rw
              (
                laws.out_message (out cmd_add (to_add r)) s.msg (ha, hb),
                laws.add_request r s.add_req ha hb,
              )
              refl,
        )

    pub tree_round :
        (m : ℕ) (t : TreeNodeImpl) (s : Memory j)
        → IsInt64 m
        → InRange (view t)
        → Allowed (view t)
        → (u : TreeNodeImpl) × (s' : Memory j) × (deliver j
              (j.marshal_out_message (out cmd_mult_tree (to_mult m t)))
              (idle s)
            ≡ one_answer (j.marshal_tree u) s')
          × (view u ≡ scale m (view t))
    unfolding deliver round serve_command serve_mult_tree
    tree_round m t s hm ht may =
        let (t', e, p) = laws.request m t s.mult_req hm ht may in
        let msg : Message j.Doc = record {
          command = cmd_mult_tree;
          payload = some (j.marshal_request m t);
        } in
        (
          mult m t',
          record s { msg = msg; mult_req = record { mult = m; tree = some (mult m t') } },
          rw (laws.out_message (out cmd_mult_tree (to_mult m t)) s.msg (hm, ht, may), e) refl,
          view-mult m t' ∙ ap (scale m) p,
        )

    pub hex_round :
        (bs : List ℕ) (s : Memory j)
        → All IsByte bs
        → length bs ≤ max_hex_encode_size
        → (s' : Memory j) × (deliver j
              (j.marshal_out_message (out cmd_to_hex (to_encode bs)))
              (idle s)
            ≡ one_answer (j.marshal_bytes (encode bs)) s')
    unfolding deliver round serve_command serve_to_hex
    hex_round bs s hb small =
        let msg : Message j.Doc = record {
          command = cmd_to_hex;
          payload = some (j.marshal_bytes bs);
        } in
        (
          record s { msg = msg; hex_in = bs },
          rw (laws.out_message (out cmd_to_hex (to_encode bs)) s.msg hb, laws.bytes bs s.hex_in hb)
              (rw (le→leb (length bs * 2) (max_hex_encode_size * 2) (omega arith)) refl),
        )

    -- The server answers a `ToHex` message of JSON exactly when the input has at most
    -- `MaxHexEncodeSize` bytes, whatever its variables hold.
    pub hex_round_iff :
        (bs : List ℕ) (s : Memory j)
        → All IsByte bs
        → ((round j (mailbox j) (s, hex_mail bs)).0 ≡ ok tt) ↔ (length bs ≤ max_hex_encode_size)
    unfolding round serve_command serve_to_hex
    hex_round_iff bs s hb =
        rw (laws.out_message (out cmd_to_hex (to_encode bs)) s.msg hb, laws.bytes bs s.hex_in hb)
          ((λ h. ground arith, λ h. ground arith))
