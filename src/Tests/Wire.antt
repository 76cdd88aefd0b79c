-- ===== src/Tests/Wire.antt =====
-- Requests on the wire, and the rounds that answer them.
use gorpcbench.Prelude.{ℕ, ◌≡◌, refl, arith, List, [], ◌∷◌, ◌++◌, true}
use gorpcbench.Go.Errors.{ok, err, stuck, formatted, unexpected_eof}
use gorpcbench.Go.Binary.{put_uint64}
use gorpcbench.Go.Hex.{encode}
use gorpcbench.Go.Conn.{feed, wrote}
use gorpcbench.Rpcbench.Values.{preorder}
use gorpcbench.Rpcbench.Tree.{TreeNodeImpl}
use gorpcbench.Rpcbench.Tree.View.{view}
use gorpcbench.Binutils.{write_tree, read_tree, do_mult_tree_request}
use gorpcbench.Binutils.Numbers.{words}
use gorpcbench.Binutils.Trees.{write_tree_lem, read_tree_lem}
use gorpcbench.Binutils.Requests.{scaled, do_mult_tree_request_lem, do_mult_tree_request_short}
use gorpcbench.Tcp.Server.{to_hex_loop, round}
use gorpcbench.Tcp.Server.HexLoop.{to_hex_loop_lem, to_hex_loop_livelock}
use gorpcbench.Tcp.Server.Rounds.{replied, round_nop}
use gorpcbench.Http1.Server.{Request}
use gorpcbench.Tests.{slow, small, small_values, doubled}

put_uint64_two_bytes : put_uint64 258 ≡ 2 ∷ 1 ∷ 0 ∷ 0 ∷ 0 ∷ 0 ∷ 0 ∷ 0 ∷ []
unfolding put_uint64
put_uint64_two_bytes = refl

write_tree_lem_example : write_tree small slow ≡ (ok tt, wrote (words (preorder (view small))) slow)
write_tree_lem_example = write_tree_lem small slow refl

read_tree_lem_example :
    (u : TreeNodeImpl) × (read_tree doubled (feed (words (preorder small_values) ++ 9 ∷ []) slow)
      ≡ (ok tt, u, feed (9 ∷ []) slow))
    × (view u ≡ small_values)
read_tree_lem_example =
    read_tree_lem doubled small_values (9 ∷ []) slow (unfold view in (tt, (tt, tt)))
      (omega arith, ((omega arith, tt), ((omega arith, tt), tt)))

do_mult_tree_request_lem_example :
    do_mult_tree_request (feed (words (2 ∷ 2 ∷ 3 ∷ 5 ∷ []) ++ 9 ∷ []) slow)
    ≡ (ok tt, feed (9 ∷ []) (wrote (words (scaled 2 (3 ∷ 5 ∷ []))) slow))
do_mult_tree_request_lem_example =
    do_mult_tree_request_lem 2 (3 ∷ 5 ∷ []) (9 ∷ []) slow (omega arith)
      (omega arith, (omega arith, tt)) (omega arith) refl

do_mult_tree_request_short_example :
    do_mult_tree_request (feed (words (2 ∷ 4 ∷ 3 ∷ 5 ∷ []) ++ 9 ∷ []) slow) ≡ (
      err (formatted "unable to read value" unexpected_eof),
      feed [] (wrote (words (scaled 2 (3 ∷ 5 ∷ []))) slow),
    )
do_mult_tree_request_short_example =
    do_mult_tree_request_short 2 4 (3 ∷ 5 ∷ []) (9 ∷ []) slow (omega arith)
      (omega arith, (omega arith, tt)) (omega arith) (omega arith) (omega arith) refl

to_hex_loop_lem_example :
    to_hex_loop 3 3 (feed (1 ∷ 171 ∷ 255 ∷ []) slow)
    ≡ (ok tt, feed [] (wrote (encode (1 ∷ 171 ∷ 255 ∷ [])) slow))
to_hex_loop_lem_example = to_hex_loop_lem (1 ∷ 171 ∷ 255 ∷ []) slow (omega arith) refl

to_hex_loop_livelock_example :
    to_hex_loop 1000 131072 (feed (1 ∷ 171 ∷ 255 ∷ []) slow)
    ≡ (stuck, feed (1 ∷ 171 ∷ 255 ∷ []) slow)
to_hex_loop_livelock_example =
    to_hex_loop_livelock 1000 131072 (feed (1 ∷ 171 ∷ 255 ∷ []) slow) (omega arith) (omega arith)
      refl

round_nop_example : round (feed (1 ∷ 9 ∷ []) slow) ≡ (ok true, replied (1 ∷ []) (9 ∷ []) slow)
round_nop_example = round_nop (9 ∷ []) slow refl

abbrev post : List ℕ → Request
post bs = record {
  path = "/add";
  content_type = "application/octet-stream";
  body = bs;
  grant = λ n. 0;
  duplex = ok tt;
}
