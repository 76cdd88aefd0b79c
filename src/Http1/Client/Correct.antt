-- ===== src/Http1/Client/Correct.antt =====
-- Every call of the HTTP client, joined to the server's handlers, is answered as the interface says.
use gorpcbench.Rpcbench.TreeNode.Copy.{copy_tree-StandsFor}
use gorpcbench.Prelude.{
  ℕ, ◌*◌, ◌≡◌, refl, sym, ap, ◌∙◌, arith, List, [], ◌∷◌, ◌++◌, append-nil, length, All, String,
}
use gorpcbench.Go.Int64.{IsInt64, IsCount, add64, add64-IsInt64}
use gorpcbench.Go.Errors.{ok}
use gorpcbench.Go.Binary.{put_uint64}
use gorpcbench.Go.Hex.{encode, length-encode}
use gorpcbench.Go.Conn.{Conn, wrote, read_full, read_full-feed}
use gorpcbench.Rpcbench.Values.{
  Widths-any, Tree, preorder, preorder-scale, preorder-InRange, length-preorder, SameShape, scale,
  size, InRange, scale-SameShape, scale-InRange,
}
use gorpcbench.Rpcbench.Tree.{TreeNodeImpl, total_nodes, reset}
use gorpcbench.Rpcbench.Tree.View.{view, total_nodes-size}
use gorpcbench.Rpcbench.Tree.Nodes.{tree_node_impl, view-eq, StandsFor-view}
use gorpcbench.Rpcbench.Client.{IsCorrect, Fills}
use gorpcbench.Binutils.{read_int64, read_mult_tree_response}
use gorpcbench.Binutils.Numbers.{words, read_int64-feed, write_int64_lem}
use gorpcbench.Binutils.Trees.{read_tree_lem}
use gorpcbench.Binutils.Requests.{scaled, write_mult_tree_request_lem}
use gorpcbench.Http1.Server.{Request, Response, serve}
use gorpcbench.Http1.Server.Replies.{handle_add_lem, handle_mult_tree_lem, handle_to_hex_lem}
use gorpcbench.Http1.Client.{
  Transport, State, buffer, nop, add_body, add, mult_tree_values, to_hex, http1_client,
}

module _ (grant : ℕ → ℕ) where
  abbrev pub request : String → String → List ℕ → Request
  request path content_type body = record {
    path = path;
    content_type = content_type;
    body = body;
    grant = grant;
    duplex = ok tt;
  }

  abbrev reply : String → List ℕ → List ℕ
  reply path body = (serve (request path "application/octet-stream" body)).body

  reply_add :
      (a b : ℕ) → IsInt64 a → IsInt64 b → reply "/add" (words (a ∷ b ∷ [])) ≡ put_uint64 (add64 a b)
  unfolding serve
  reply_add a b ha hb = ap (λ (r : Response). r.body) (handle_add_lem _ refl a b ha hb refl)

  reply_tree :
      (m : ℕ) (vs : List ℕ)
      → IsInt64 m
      → All IsInt64 vs
      → IsCount (length vs)
      → reply "/multTree" (words (m ∷ length vs ∷ vs)) ≡ words (scaled m vs)
  unfolding serve
  reply_tree m vs hm hvs hn =
      ap (λ (r : Response). r.body) (handle_mult_tree_lem _ refl m vs hm hvs hn refl refl)

  reply_hex : (bs : List ℕ) → reply "/toHex" bs ≡ encode bs
  unfolding serve
  reply_hex bs =
      ap (λ (r : Response). r.body)
        (handle_to_hex_lem (request "/toHex" "application/octet-stream" bs) refl refl)

-- While a client is connected, a request comes to the server's mux, in pieces of some size, and the
-- response comes back; the client stays connected.
pub record Delivers (w : Transport) (Live : w.Pool → Type 0) : Type 0 where
  pub get_delivers :
      (path : String) (p : w.Pool)
      → Live p
      → (grant : ℕ → ℕ) × (p' : w.Pool) × (w.get path p
          ≡ (ok (serve (request grant path "" [])), p'))
        × Live p'
  pub post_delivers :
      (path content_type : String) (body : List ℕ) (p : w.Pool)
      → Live p
      → (grant : ℕ → ℕ) × (p' : w.Pool) × (w.post path content_type body p
          ≡ (ok (serve (request grant path content_type body)), p'))
        × Live p'

module _ (w : Transport) (Live : w.Pool → Type 0) (delivers : Delivers w Live) where
  abbrev pub IsReady : State w → Type 0
  IsReady s = Live s.hc

  call_nop : (s : State w) → IsReady s → (s' : State w) × (nop w s ≡ (ok tt, s')) × IsReady s'
  unfolding nop
  call_nop s h =
      let (grant, p, e, live) = delivers.get_delivers "/nop" s.hc h in
      (record s { hc = p }, rw e refl, live)

  call_add :
      (a b : ℕ) (s : State w)
      → IsInt64 a
      → IsInt64 b
      → IsReady s
      → (s' : State w) × (add w a b s ≡ (ok (add64 a b), s')) × IsReady s'
  unfolding add add_body
  call_add a b s ha hb h =
      let c0 : Conn = buffer s.grant [] in
      let (grant, p, e, live) =
        delivers.post_delivers "/add" "application/octet-stream" (words (a ∷ b ∷ [])) s.hc h in
      let answer : read_int64 (buffer s.grant (reply grant "/add" (words (a ∷ b ∷ []))))
          ≡ (ok (add64 a b), c0) =
        ap (λ bs. read_int64 (buffer s.grant bs))
          (reply_add grant a b ha hb ∙ sym (append-nil (put_uint64 (add64 a b))))
        ∙ read_int64-feed (add64 a b) [] c0 (add64-IsInt64 a b) in
      (
        record s { hc = p },
        rw
            (
              write_int64_lem a c0 refl,
              write_int64_lem b (wrote (put_uint64 a) c0) refl,
              two_words a b,
              e,
            )
            (ap (λ r. (r.0, record s { hc = p })) answer),
        live,
      )
    where
      two_words : (x y : ℕ) → put_uint64 x ++ put_uint64 y ≡ words (x ∷ y ∷ [])
      two_words x y = unfold words in ap (λ t. put_uint64 x ++ t) (sym (append-nil (put_uint64 y)))

  call_to_hex :
      (bs : List ℕ) (s : State w)
      → IsReady s
      → (s' : State w) × (to_hex w bs (length bs * 2) s ≡ (ok (encode bs), s')) × IsReady s'
  unfolding to_hex
  call_to_hex bs s h =
      let (grant, p, e, live) =
        delivers.post_delivers "/toHex" "application/octet-stream" bs s.hc h in
      let answer : read_full (length bs * 2) (buffer s.grant (reply grant "/toHex" bs))
          ≡ (ok (encode bs), buffer s.grant []) =
        ap (λ out. read_full (length bs * 2) (buffer s.grant out))
          (reply_hex grant bs ∙ sym (append-nil (encode bs)))
        ∙ read_full-feed (encode bs) [] (length bs * 2) (buffer s.grant []) (length-encode bs) in
      (record s { hc = p }, rw e (ap (λ r. (r.0, record s { hc = p })) answer), live)

  call_tree :
      (m : ℕ) (fill : TreeNodeImpl → TreeNodeImpl) (v : Tree) (s : State w)
      → IsInt64 m
      → Fills tree_node_impl fill v
      → InRange v
      → IsCount (size v)
      → IsReady s
      → (u : TreeNodeImpl) × (s' : State w) × (mult_tree_values w m fill s ≡ (ok u, s'))
        × (view u ≡ scale m v)
        × IsReady s'
  unfolding mult_tree_values read_mult_tree_response
  call_tree m fill v s hm hf hv hs h =
      let t : TreeNodeImpl = fill (reset s.tree) in
      let seen : view t ≡ v = view-eq t v (hf (reset s.tree)) in
      let n : total_nodes t ≡ length (preorder v) =
        total_nodes-size t ∙ rw seen (omega (arith, length-preorder v)) in
      let same : SameShape (view t) (scale m v) = rw seen (scale-SameShape m v) in
      let c0 : Conn = buffer s.grant [] in
      let (grant, p, e, live) =
        delivers.post_delivers "/multTree" "application/octet-stream"
          (words (m ∷ length (preorder v) ∷ preorder v)) s.hc h in
      let (u, f, q) = read_tree_lem t (scale m v) [] c0 same (scale-InRange m v) in
      (
        u,
        record s { hc = p; tree = u },
        rw (
          write_mult_tree_request_lem m t c0 refl,
          seen,
          n,
          e,
          reply_tree grant m (preorder v) hm (preorder-InRange v hv)
              (omega (arith, length-preorder v)),
          sym (preorder-scale m v),
          sym (append-nil (words (preorder (scale m v)))),
          f,
        ),
        q,
        live,
      )

  -- The HTTP client answers every call of the interface as the interface asks, over a transport
  -- that brings its requests to the server's handlers and the responses back.
  pub http1_client-IsCorrect : IsCorrect (http1_client w) IsReady
  http1_client-IsCorrect = record {
    reshape = λ v w same h. tt;
    copy_fills = λ src t h. copy_tree-StandsFor tree_node_impl src t (Widths-any (view src));
    nop_ok = call_nop;
    add_ok = call_add;
    mult_ok = λ m fill v s hm hf hv any hs h.
        let (u, s', e, p, ready) = call_tree m fill v s hm hf hv hs h in
        (u, s', e, StandsFor-view u (scale m v) p, ready);
    hex_ok = λ bs s hb small h. call_to_hex bs s h;
  }
