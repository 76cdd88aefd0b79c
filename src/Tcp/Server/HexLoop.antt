-- ===== src/Tcp/Server/HexLoop.antt =====
-- The loop of `cmdToHex`.
use gorpcbench.Prelude.{
  ℕ, zero, suc, ◌≤◌, ◌<◌, ◌≡◌, refl, sym, ap, ◌∙◌, arith, List, [], ◌∷◌, length, take, drop, min,
  length-take, length-drop, take-append-drop, true,
}
use gorpcbench.Go.Int64.{IsCount, sub64, is_positive}
use gorpcbench.Go.Errors.{ok, stuck}
use gorpcbench.Go.Io.{◌>>=◌, ◌>>◌}
use gorpcbench.Go.Hex.{encode, encode-append}
use gorpcbench.Go.Conn.{Conn, healthy, feed, wrote, read, write, write_lem}
use gorpcbench.Rpcbench.Limits.{max_hex_encode_size}
use gorpcbench.Tcp.Server.{hex_room, to_hex_loop}
use gorpcbench.Binutils.Numbers.{wrote-wrote, wrote-nil}

-- A read that can take a byte takes at least one.
read_some :
    (n : ℕ) (bs : List ℕ) (c : Conn)
    → 0 < n
    → 0 < length bs
    → (k : ℕ) × (0 < k) × (read n (feed bs c) ≡ (ok (take k bs), feed (drop k bs) c))
unfolding read
read_some zero bs c h p = absurd (omega arith)
read_some (suc n) [] c h p = absurd (omega arith)
read_some (suc n) (b ∷ bs) c h p =
    (min (suc n) (suc (c.grant (length (b ∷ bs)))), omega arith, refl)

loop_step :
    (fuel size : ℕ) (c : Conn)
    → is_positive size ≡ true
    → to_hex_loop (suc fuel) size c
      ≡ (do
        buf ← read (hex_room size)
        write (encode buf)
        to_hex_loop fuel (sub64 size (length buf)))
          c
unfolding to_hex_loop
loop_step fuel size c h = rw h

loop_end : (fuel : ℕ) (c : Conn) → to_hex_loop fuel 0 c ≡ (ok tt, c)
unfolding to_hex_loop
loop_end zero c = refl
loop_end (suc fuel) c = refl

left_over :
    (k : ℕ) (bs : List ℕ)
    → length bs < max_hex_encode_size
    → sub64 (length bs) (length (take k bs)) ≡ length (drop k bs)
unfolding sub64
left_over k bs h = omega (arith, length-take k bs, length-drop k bs)

to_hex_loop_run :
    (fuel : ℕ) (bs : List ℕ) (c : Conn)
    → length bs ≤ fuel
    → length bs < max_hex_encode_size
    → c.health ≡ healthy
    → to_hex_loop fuel (length bs) (feed bs c) ≡ (ok tt, feed [] (wrote (encode bs) c))
unfolding encode
to_hex_loop_run fuel [] c f small h =
    loop_end fuel (feed [] c) ∙ ap (λ d. (ok tt, feed [] d)) (sym (wrote-nil c))
to_hex_loop_run zero (b ∷ bs) c f small h = elim f [ ]
to_hex_loop_run (suc fuel) (b ∷ bs) c f small h =
    let (k, pos, e) =
      read_some (hex_room (length (b ∷ bs))) (b ∷ bs) c (omega arith) (omega arith) in
    let out : List ℕ = encode (take k (b ∷ bs)) in
    let ih =
      to_hex_loop_run fuel (drop k (b ∷ bs)) (wrote out c) (omega (arith, length-drop k (b ∷ bs)))
        (omega (arith, length-drop k (b ∷ bs))) h in
    rw
      (
        loop_step fuel (length (b ∷ bs)) (feed (b ∷ bs) c) (ground arith),
        e,
        write_lem out (feed (drop k (b ∷ bs)) c) h,
        left_over k (b ∷ bs) small,
        ih,
      )
      (ap (λ d. (ok tt, feed [] d)) (wrote-wrote out (encode (drop k (b ∷ bs))) c)
        ∙ ap (λ o. (ok tt, feed [] (wrote o c)))
            (sym (encode-append (take k (b ∷ bs)) (drop k (b ∷ bs)))
              ∙ ap encode (take-append-drop k (b ∷ bs))))

-- With the bytes of the message to come and no more, a message shorter than the buffer, and writing
-- that does not fail, the loop ends within as many rounds as the message has bytes and writes its
-- hex form, however the bytes arrive.
pub to_hex_loop_lem :
    (bs : List ℕ) (c : Conn)
    → length bs < max_hex_encode_size
    → c.health ≡ healthy
    → to_hex_loop (length bs) (length bs) (feed bs c) ≡ (ok tt, feed [] (wrote (encode bs) c))
to_hex_loop_lem bs c small h = to_hex_loop_run (length bs) bs c (omega arith) small h

read_none : (c : Conn) → read 0 c ≡ (ok [], c)
unfolding read
read_none c = refl

sub64-zero : (size : ℕ) → IsCount size → sub64 size 0 ≡ size
unfolding sub64
sub64-zero size h = omega arith

big_IsPositive : (size : ℕ) → max_hex_encode_size ≤ size → IsCount size → is_positive size ≡ true
big_IsPositive size big count = ground arith

no_room : (size : ℕ) → max_hex_encode_size ≤ size → hex_room size ≡ 0
no_room size big = omega arith

-- For a message of the buffer's length or more the slice that is read into is empty: a round reads
-- nothing, and the loop has not ended after any number of rounds, whatever has arrived, while
-- writing does not fail.
pub to_hex_loop_livelock :
    (fuel size : ℕ) (c : Conn)
    → max_hex_encode_size ≤ size
    → IsCount size
    → c.health ≡ healthy
    → to_hex_loop fuel size c ≡ (stuck, c)
unfolding encode
to_hex_loop_livelock zero size c big count h =
    unfold to_hex_loop in rw (big_IsPositive size big count)
to_hex_loop_livelock (suc fuel) size c big count h = rw (
  loop_step fuel size c (big_IsPositive size big count),
  no_room size big,
  read_none c,
  write_lem [] c h,
  wrote-nil c,
  sub64-zero size count,
  to_hex_loop_livelock fuel size c big count h,
)
