-- ===== src/Websocket/Session/Correct.antt =====
-- Every binary call over a connection that is idle is answered as the interface says.
use gorpcbench.Rpcbench.TreeNode.Copy.{copy_tree-StandsFor}
use gorpcbench.Prelude.{
  ℕ, ◌*◌, ◌<◌, ◌≡◌, refl, sym, ap, ◌∙◌, arith, List, [], ◌∷◌, length, append-nil, true,
}
use gorpcbench.Go.Int64.{IsInt64, IsCount, add64, add64-IsInt64}
use gorpcbench.Go.Errors.{Error, ok, err, stuck}
use gorpcbench.Go.Io.{Io, pure, ◌>>◌}
use gorpcbench.Go.Hex.{encode, length-encode}
use gorpcbench.Go.Binary.{put_uint64}
use gorpcbench.Go.Conn.{
  Conn, healthy, wrote, flushed, read_byte, read_full, write, flush, read_full-feed,
}
use gorpcbench.Rpcbench.Limits.{max_hex_encode_size}
use gorpcbench.Rpcbench.Values.{
  Widths-any, Tree, preorder, preorder-scale, preorder-InRange, length-preorder, scale, size,
  InRange, scale-SameShape, scale-InRange,
}
use gorpcbench.Rpcbench.Tree.{TreeNodeImpl, total_nodes, reset}
use gorpcbench.Rpcbench.Tree.View.{view, total_nodes-size}
use gorpcbench.Rpcbench.Tree.Nodes.{tree_node_impl, view-eq, StandsFor-view}
use gorpcbench.Rpcbench.Client.{IsCorrect, Fills}
use gorpcbench.Binutils.{read_int64, write_int64, read_mult_tree_response}
use gorpcbench.Binutils.Numbers.{words, read_int64-feed}
use gorpcbench.Binutils.Trees.{read_tree_lem}
use gorpcbench.Binutils.Requests.{write_mult_tree_request_lem}
use gorpcbench.Tcp.Protocol.{cmd_mult_tree}
use gorpcbench.Websocket.Socket.{messages}
use gorpcbench.Websocket.Binary.{
  send_nop, send_add, send_tree, send_hex, taken, call, nop, add, mult_tree_values, to_hex,
}
use gorpcbench.Websocket.Binary.Rounds
use gorpcbench.Websocket.Binary.Rounds.{Request, command, body, reply, Fits, round-reply}
use gorpcbench.Websocket.Session.{
  Line, mailbox, deliver, linked, State, with_line, with_tree, ws_client,
}

abbrev pub idle : Line
idle = record { answers = []; running = true }

abbrev pub IsReady : State → Type 0
IsReady s = s.line ≡ idle

module _ (grant : ℕ → ℕ) where
  deliver_lem :
      (r : Request)
      → Fits r
      → deliver grant (command r ∷ body r) idle ≡ record { answers = reply r ∷ []; running = true }
  unfolding deliver
  deliver_lem r f = rw (
      round-reply mailbox grant r ((command r ∷ body r) ∷ [], []) ([], []) ([], [])
        ([], reply r ∷ []) f refl refl refl)

  -- A call that sends a request takes its result from the reply.
  call_lem :
      {X : Type 0} (fail : Error → X) (hang : X) (take : Conn → X) (send : Io Conn (Unit {0}))
      (c : Conn) (r : Request)
      → Fits r
      → send (messages grant [] healthy) ≡ (ok tt, c)
      → c.sent ≡ command r ∷ body r
      → call (linked grant) grant fail hang take send idle
        ≡ (take (messages grant (reply r) healthy), idle)
  call_lem fail hang take send c r f e sent = rw (e, sent, deliver_lem r f)

  -- What a client's message holds once it is flushed.
  abbrev built : Request → Conn
  built r = flushed (wrote (command r ∷ body r) (messages grant [] healthy))

  ask :
      {X : Type 0} (fail : Error → X) (hang : X) (take : Conn → X) (send : Io Conn (Unit {0}))
      (r : Request)
      → Fits r
      → send (messages grant [] healthy) ≡ (ok tt, built r)
      → call (linked grant) grant fail hang take send idle
        ≡ (take (messages grant (reply r) healthy), idle)
  ask fail hang take send r f e = call_lem fail hang take send (built r) r f e refl

  call_nop :
      (s : State) → IsReady s → (s' : State) × ((ws_client grant).nop s ≡ (ok tt, s')) × IsReady s'
  unfolding nop write flush read_byte command body reply
  call_nop s h = (
    record { line = idle; tree = s.tree },
    ap (λ (l : Line). with_line s.tree (nop (linked grant) grant l)) h
        ∙ ap (with_line s.tree)
            (ask err stuck (λ c. ((do read_byte; pure tt) c).0) send_nop Rounds.nop tt refl),
    refl,
  )

  call_add :
      (a b : ℕ) (s : State)
      → IsInt64 a
      → IsInt64 b
      → IsReady s
      → (s' : State) × ((ws_client grant).add a b s ≡ (ok (add64 a b), s')) × IsReady s'
  unfolding add write flush write_int64 command body reply words
  call_add a b s ha hb h =
      let back : read_int64 (messages grant (put_uint64 (add64 a b)) healthy)
          ≡ (ok (add64 a b), messages grant [] healthy) =
        ap (λ bs. read_int64 (messages grant bs healthy))
          (sym (append-nil (put_uint64 (add64 a b))))
        ∙ read_int64-feed (add64 a b) [] (messages grant [] healthy) (add64-IsInt64 a b) in
      (
        record { line = idle; tree = s.tree },
        ap (λ (l : Line). with_line s.tree (add (linked grant) grant a b l)) h
            ∙ ap (with_line s.tree) (
                ask err stuck (λ c. (read_int64 c).0) (send_add a b) (Rounds.add a b) (ha, hb)
                  (rw (append-nil (put_uint64 b)) refl))
            ∙ rw back refl,
        refl,
      )

  call_to_hex :
      (bs : List ℕ) (s : State)
      → length bs < max_hex_encode_size
      → IsReady s
      → (s' : State) × ((ws_client grant).to_hex bs (length bs * 2) s ≡ (ok (encode bs), s'))
        × IsReady s'
  unfolding to_hex write flush write_int64 command body reply
  call_to_hex bs s small h =
      let n : ℕ = length bs * 2 in
      let back : read_full n (messages grant (encode bs) healthy)
          ≡ (ok (encode bs), messages grant [] healthy) =
        ap (λ t. read_full n (messages grant t healthy)) (sym (append-nil (encode bs)))
        ∙ read_full-feed (encode bs) [] n (messages grant [] healthy) (length-encode bs) in
      (
        record { line = idle; tree = s.tree },
        ap (λ (l : Line). with_line s.tree (to_hex (linked grant) grant bs n l)) h
            ∙ ap (with_line s.tree)
                (ask err stuck (λ c. (read_full n c).0) (send_hex bs) (Rounds.to_hex bs) small refl)
            ∙ rw back refl,
        refl,
      )

  call_tree :
      (m : ℕ) (fill : TreeNodeImpl → TreeNodeImpl) (v : Tree) (s : State)
      → IsInt64 m
      → Fills tree_node_impl fill v
      → InRange v
      → IsCount (size v)
      → IsReady s
      → (u : TreeNodeImpl) × (s' : State) × ((ws_client grant).mult_tree_values m fill s
          ≡ (ok u, s'))
        × (view u ≡ scale m v)
        × IsReady s'
  unfolding mult_tree_values read_mult_tree_response write flush command body reply
  call_tree m fill v s hm hf hv hs h =
      let t : TreeNodeImpl = fill (reset s.tree) in
      let e : view t ≡ v = view-eq t v (hf (reset s.tree)) in
      let r : Tree = scale m v in
      let n : total_nodes t ≡ length (preorder v) =
        total_nodes-size t ∙ rw e (omega (arith, length-preorder v)) in
      let c0 : Conn = messages grant [] healthy in
      let q : Request = Rounds.mult_tree m (preorder v) in
      let (u, f, p) = read_tree_lem t r [] c0 (rw e (scale-SameShape m v)) (scale-InRange m v) in
      let sends : send_tree m t c0 ≡ (ok tt, built q) =
        rw (write_mult_tree_request_lem m t (wrote (cmd_mult_tree ∷ []) c0) refl, e, n) refl in
      let back : taken (read_mult_tree_response t (messages grant (reply q) healthy)) ≡ (ok tt, u) =
        ap (λ bs. taken (read_mult_tree_response t (messages grant bs healthy)))
          (ap words (sym (preorder-scale m v)) ∙ sym (append-nil (words (preorder r))))
        ∙ ap taken f in
      (
        u,
        record { line = idle; tree = u },
        ap (λ (l : Line). with_tree (mult_tree_values (linked grant) grant m fill s.tree l)) h
            ∙ ap with_tree (
                ask (λ x. (err x, t)) (stuck, t) (λ c. taken (read_mult_tree_response t c))
                  (send_tree m t) q (hm, (preorder-InRange v hv, omega (arith, length-preorder v)))
                  sends)
            ∙ rw back refl,
        p,
        refl,
      )

-- A binary websocket client over an idle connection to a running server answers every call of the
-- interface as the interface asks, and the connection is idle again: the sum of `Add`, the tree of
-- `MultTreeValues` with every value multiplied, when `fillArgs` makes a tree of fewer than 2 ^ 63
-- nodes, and the hex form of any input shorter than `MaxHexEncodeSize`.
pub ws_client-IsCorrect : (grant : ℕ → ℕ) → IsCorrect (ws_client grant) IsReady
ws_client-IsCorrect grant = record {
  reshape = λ v w same h. tt;
  copy_fills = λ src t h. copy_tree-StandsFor tree_node_impl src t (Widths-any (view src));
  nop_ok = call_nop grant;
  add_ok = call_add grant;
  mult_ok = λ m fill v s hm hf hv any hs h.
      let (u, s', e, p, ready) = call_tree grant m fill v s hm hf hv hs h in
      (u, s', e, StandsFor-view u (scale m v) p, ready);
  hex_ok = λ bs s hb small h. call_to_hex grant bs s small h;
}
