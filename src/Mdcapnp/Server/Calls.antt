-- ===== src/Mdcapnp/Server/Calls.antt =====
-- What `Call` answers to the calls that the client makes, and to others.
use gorpcbench.Prelude.{
  ℕ, ◌*◌, ◌<◌, ◌≤◌, ◌≡◌, refl, ◌∙◌, arith, List, length, ◌≢◌, ◌⊎◌, inl, inr, ==-other, String, Bool,
  true, false, ◌==◌,
}
use gorpcbench.Go.Int64.{add64}
use gorpcbench.Go.Errors.{text, ok, err}
use gorpcbench.Go.Hex.{encode, length-encode}
use gorpcbench.Rpcbench.Limits.{max_hex_encode_size}
use gorpcbench.Rpcbench.Values.{Tree, Widths, size, scale}
use gorpcbench.Mdcapnp.Ser.{StructSize, Ser, max_list}
use gorpcbench.Mdcapnp.Api.{
  interface_id, nop_method_id, add_method_id, to_hex_method_id, mult_tree_method_id,
  add_response_size, hex_response_size, tree_node_size, a, b, c, data_of, hex_data, mult, tree,
  set_c, new_hex_data,
}
use gorpcbench.Mdcapnp.Server.{
  CallContext, Answer, no_results, results, call, handle_add, handle_mult_tree, handle_to_hex,
}
use gorpcbench.Mdcapnp.Server.Trees.{Holds, mult_tree_into-Holds}

pub data Request : Type 0 where
  nop : Request
  add : ℕ → ℕ → Request
  mult_tree : ℕ → Tree → Request
  to_hex : List ℕ → Request

abbrev pub method : Request → ℕ
method nop = nop_method_id
method (add x y) = add_method_id
method (mult_tree m u) = mult_tree_method_id
method (to_hex bs) = to_hex_method_id

module _ (w : Ser) where
  -- The parameters are those of the request, and can be read to a depth of 100.
  abbrev pub Asks : ℕ → Request → w.Struct → Type 0
  Asks fuel nop s = Unit
  Asks fuel (add x y) s = (a w s ≡ x) × (b w s ≡ y)
  Asks fuel (mult_tree m u) s =
      (mult w s ≡ m)
      × (t : w.Struct) × (tree w s ≡ ok t)
      × Holds w (w.depth_limit 100 t) u
      × Widths (λ n. n < max_list) u
      × (size u ≤ fuel)
  Asks fuel (to_hex bs) s = (data_of w s ≡ bs) × (length bs < max_hex_encode_size)

  -- The answer has the result of the request.
  abbrev pub Answers : Request → Answer w → Type 0
  Answers nop no_results = Unit
  Answers nop (results s) = ⊥
  Answers (add x y) no_results = ⊥
  Answers (add x y) (results s) = c w s ≡ add64 x y
  Answers (mult_tree m u) no_results = ⊥
  Answers (mult_tree m u) (results s) = Holds w s (scale m u)
  Answers (to_hex bs) no_results = ⊥
  Answers (to_hex bs) (results s) = hex_data w s ≡ encode bs

  module _ (fuel : ℕ) (s : w.Struct) (respond : (z : StructSize) → w.Builder z) where
    abbrev pub context : ℕ → ℕ → CallContext w
    context i m = record {
      interface_id = i;
      method_id = m;
      params = ok s;
      respond = λ z. ok (respond z);
    }

    answer_add :
        (x y : ℕ)
        → Asks fuel (add x y) s
        → (ans : Answer w) × (handle_add w (context interface_id add_method_id) ≡ ok ans)
          × Answers (add x y) ans
    unfolding handle_add set_c c
    answer_add x y (ha, hb) =
        let (res, put, here, rest) =
          w.set_int64_lem 0 (add64 (a w s) (b w s)) (respond add_response_size) (omega arith) in
        (results (w.reader res), rw put refl, here ∙ rw (ha, hb) refl)

    answer_mult_tree :
        (m : ℕ) (u : Tree)
        → Asks fuel (mult_tree m u) s
        → (ans : Answer w) × (handle_mult_tree w fuel (context interface_id mult_tree_method_id)
            ≡ ok ans)
          × Answers (mult_tree m u) ans
    unfolding handle_mult_tree
    answer_mult_tree m u (hm, t, there, held, wide, few) =
        let (res, run, h) =
          mult_tree_into-Holds w m fuel u (w.depth_limit 100 t) (respond tree_node_size) few wide
            held in
        (results (w.reader res), rw (there, hm, run) refl, h)

    answer_to_hex :
        (bs : List ℕ)
        → Asks fuel (to_hex bs) s
        → (ans : Answer w) × (handle_to_hex w (context interface_id to_hex_method_id) ≡ ok ans)
          × Answers (to_hex bs) ans
    unfolding handle_to_hex new_hex_data hex_data
    answer_to_hex bs (e, small) =
        let n : ℕ = length bs * 2 in
        let (buf, res, made, count, here) =
          w.new_data_lem 0 n (encode bs) (respond hex_response_size) (omega arith) (omega arith)
            (length-encode bs) in
        (results (w.reader (w.with_data 0 (encode bs) res)), rw (e, made) refl, here)

    -- `Call` answers each call of the interface with its result: nothing, the sum in `int64`, the
    -- tree with every value multiplied, the hex form. A tree has to be one that the depth limit
    -- lets `multTree` read, with at most `fuel` nodes, none of which has 2 ^ 29 children or more,
    -- and an input has to be shorter than `MaxHexEncodeSize`.
    pub call-Answers :
        (r : Request)
        → Asks fuel r s
        → (ans : Answer w) × (call w fuel (context interface_id (method r)) ≡ ok ans)
          × Answers r ans
    unfolding call
    call-Answers nop h = (no_results, refl, tt)
    call-Answers (add x y) h = answer_add x y h
    call-Answers (mult_tree m u) h = answer_mult_tree m u h
    call-Answers (to_hex bs) h = answer_to_hex bs h

  abbrev pub IsMethod : ℕ → Type 0
  IsMethod m =
      (m ≡ nop_method_id) ⊎ (m ≡ add_method_id) ⊎ (m ≡ mult_tree_method_id) ⊎ (m ≡ to_hex_method_id)

  Refused : (fuel : ℕ) (cc : CallContext w) → Type 0
  Refused fuel cc = (e : String) × (call w fuel cc ≡ err (text e))

  other_method :
      (fuel : ℕ) (cc : CallContext w) (same : Bool)
      → (cc.interface_id == interface_id) ≡ same
      → ¬ IsMethod cc.method_id
      → Refused fuel cc
  unfolding call Refused
  other_method fuel cc false e h = ("wrong interfaceId", rw e refl)
  other_method fuel cc true e h = (
    "unimplemented method",
    rw
        (
          e,
          ==-other cc.method_id nop_method_id (λ k. h (inl k)),
          ==-other cc.method_id add_method_id (λ k. h (inr (inl k))),
          ==-other cc.method_id mult_tree_method_id (λ k. h (inr (inr (inl k)))),
          ==-other cc.method_id to_hex_method_id (λ k. h (inr (inr (inr k)))),
        )
        refl,
  )

  -- `Call` refuses a call of another interface or of another method with an error, whatever its
  -- parameters are.
  pub call-foreign :
      (fuel : ℕ) (cc : CallContext w)
      → (cc.interface_id ≢ interface_id) ⊎ ¬ IsMethod cc.method_id
      → (e : String) × (call w fuel cc ≡ err (text e))
  unfolding call Refused
  call-foreign fuel cc (inl h) =
      ("wrong interfaceId", rw (==-other cc.interface_id interface_id h) refl)
  call-foreign fuel cc (inr h) = other_method fuel cc (cc.interface_id == interface_id) refl h
