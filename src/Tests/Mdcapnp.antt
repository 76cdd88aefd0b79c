-- ===== src/Tests/Mdcapnp.antt =====
-- Structs with any number of fields.
pub mod Uses
use gorpcbench.Prelude.{
  ℕ, zero, suc, ◌<◌, ◌≡◌, ◌≢◌, refl, sym, ap, ◌∙◌, arith, List, [], ◌∷◌, map, length, some, inl,
  if◌then◌else◌, ◌==◌, ==-self, ==-other, String,
}
use gorpcbench.Go.Errors.{text, Result, ok, err, stuck}
use gorpcbench.Rpcbench.Values.{tree, empty, size, Widths}
use gorpcbench.Rpcbench.Tree.View.{view}
use gorpcbench.Rpcbench.TreeNode.{StandsFor, copy_tree}
use gorpcbench.Rpcbench.Client.{IsCorrect}
use gorpcbench.Mdcapnp.Ser.{StructSize, Ser, max_list}
use gorpcbench.Mdcapnp.Api.{interface_id, add_method_id, a, b, value, children}
use gorpcbench.Mdcapnp.Adapter.{wrap, nil, ReaderAdapter, reset, built}
use gorpcbench.Mdcapnp.Adapter.Node.{builder_node}
use gorpcbench.Mdcapnp.Adapter.Reads.{adapter_reader, reset-StandsFor}
use gorpcbench.Mdcapnp.Adapter.Builds.{built-copy_tree}
use gorpcbench.Mdcapnp.Server.{Answer, no_results, results, call}
use gorpcbench.Mdcapnp.Server.Trees.{Holds}
use gorpcbench.Mdcapnp.Server.Calls.{add, Asks, Answers, context, call-Answers}
use gorpcbench.Mdcapnp.Client.{Rpc, level0_client}
use gorpcbench.Mdcapnp.Client.Exchange.{Arrives, Delivers}
use gorpcbench.Mdcapnp.Client.Correct.{IsReady, level0_client-IsCorrect}
use gorpcbench.Mdcapnp.Client.Fresh.{mdcapnp_client, mdcapnp_client-IsCorrect}
use gorpcbench.Mdcapnp.Client.Fresh
use gorpcbench.Tests.{small}

mutual
  pub data Msg : Type 0 where
    null : Msg
    msg : (ℕ → ℕ) → (ℕ → List ℕ) → (ℕ → Msgs) → (ℕ → Msg) → Msg

  pub data Msgs : Type 0 where
    no_more : Msgs
    one_more : Msg → Msgs → Msgs

abbrev pub ints : Msg → ℕ → ℕ
ints null k = 0
ints (msg f g h s) k = f k

abbrev pub blobs : Msg → ℕ → List ℕ
blobs null k = []
blobs (msg f g h s) k = g k

abbrev pub lists : Msg → ℕ → Msgs
lists null k = no_more
lists (msg f g h s) k = h k

abbrev pub structs : Msg → ℕ → Msg
structs null k = null
structs (msg f g h s) k = s k

abbrev pub to_list : Msgs → List Msg
to_list no_more = []
to_list (one_more m ms) = m ∷ to_list ms

abbrev pub of_list : List Msg → Msgs
of_list [] = no_more
of_list (m ∷ ms) = one_more m (of_list ms)

to_list-of_list : (ms : List Msg) → to_list (of_list ms) ≡ ms
to_list-of_list [] = refl
to_list-of_list (m ∷ ms) = ap (λ xs. m ∷ xs) (to_list-of_list ms)

pub map_same : (ms : List Msg) → map (λ m. m) ms ≡ ms
map_same [] = refl
map_same (m ∷ ms) = ap (λ xs. m ∷ xs) (map_same ms)

abbrev pub blanks : ℕ → List Msg
blanks zero = []
blanks (suc n) = null ∷ blanks n

pub length-blanks : (n : ℕ) → length (blanks n) ≡ n
length-blanks zero = refl
length-blanks (suc n) = ap suc (length-blanks n)

abbrev pub zeros : ℕ → List ℕ
zeros zero = []
zeros (suc n) = 0 ∷ zeros n

pub length-zeros : (n : ℕ) → length (zeros n) ≡ n
length-zeros zero = refl
length-zeros (suc n) = ap suc (length-zeros n)

abbrev pub put {ℓ} : {A : Type ℓ} → ℕ → A → (ℕ → A) → ℕ → A
put i x f k = if k == i then x else f k

pub put_here {ℓ} : {A : Type ℓ} (i : ℕ) (x : A) (f : ℕ → A) → put i x f i ≡ x
put_here i x f = rw (==-self i)

pub put_there {ℓ} : {A : Type ℓ} (i k : ℕ) (x : A) (f : ℕ → A) → k ≢ i → put i x f k ≡ f k
put_there i k x f h = rw (==-other k i h)

abbrev pub with_int : ℕ → ℕ → Msg → Msg
with_int i v b = msg (put i v (ints b)) (blobs b) (lists b) (structs b)

abbrev pub with_blob : ℕ → List ℕ → Msg → Msg
with_blob i bs b = msg (ints b) (put i bs (blobs b)) (lists b) (structs b)

abbrev pub with_msgs : ℕ → List Msg → Msg → Msg
with_msgs i ms b = msg (ints b) (blobs b) (put i (of_list ms) (lists b)) (structs b)

abbrev pub with_msg : ℕ → Msg → Msg → Msg
with_msg i m b = msg (ints b) (blobs b) (lists b) (put i m (structs b))

pub listed : (i : ℕ) (ms : List Msg) (b : Msg) → to_list (lists (with_msgs i ms b) i) ≡ ms
listed i ms b = ap to_list (put_here i (of_list ms) (lists b)) ∙ to_list-of_list ms

abbrev pub msgs : Ser
msgs = record {
  Struct = Msg;
  Builder = λ z. Msg;
  int64 = λ k s. ints s k;
  data_at = λ k s. blobs s k;
  struct_list = λ k s. ok (to_list (lists s k));
  struct_at = λ k s. ok (structs s k);
  depth_limit = λ n s. s;
  reader = λ b. b;
  set_int64 = λ i v b. (ok tt, with_int i v b);
  new_list = λ e i n cap b. (ok (blanks n), with_msgs i (blanks n) b);
  list_of = λ e i b. some (to_list (lists b i));
  with_list = λ e i ms b. with_msgs i ms b;
  new_struct = λ e i b. (ok null, b);
  with_struct = λ e i m b. with_msg i m b;
  set_data = λ i bs b. (ok tt, with_blob i bs b);
  new_data = λ i n b. (ok (zeros n), b);
  with_data = λ i bs b. with_blob i bs b;
  set_int64_lem = λ i v b h.
      (with_int i v b, refl, put_here i v (ints b), λ k other. put_there i k v (ints b) other);
  new_list_lem = λ e i n b h few. (
    blanks n,
    with_msgs i (blanks n) b,
    refl,
    length-blanks n,
    ap some (listed i (blanks n) b),
    λ k. refl,
  );
  int64-with_list = λ e i k ms b. refl;
  list-with_list = λ e i old ms b h n. ap ok (listed i ms b ∙ sym (map_same ms));
  new_struct_lem = λ e i b h. (null, b, refl, λ k. refl);
  int64-with_struct = λ e i k m b. refl;
  struct-with_struct = λ e i m b h. ap ok (put_here i m (structs b));
  set_data_lem = λ i bs b h few. (with_blob i bs b, refl, put_here i bs (blobs b));
  new_data_lem = λ i n bs b h few k. (zeros n, b, refl, length-zeros n, put_here i bs (blobs b));
}
