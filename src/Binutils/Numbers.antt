-- ===== src/Binutils/Numbers.antt =====
-- Numbers on the wire: what `ReadInt64` and `WriteInt64` do on every connection.
use gorpcbench.Prelude.{
  ℕ, ◌*◌, ◌<◌, ◌≡◌, refl, ap, arith, List, [], ◌∷◌, ◌++◌, append_assoc, append-nil, length,
  length-append, lt→leb_false,
}
use gorpcbench.Go.Int64.{IsInt64}
use gorpcbench.Go.Errors.{ok, err}
use gorpcbench.Go.Binary.{put_uint64, length-put_uint64, uint64-put_uint64}
use gorpcbench.Go.Conn.{
  Conn, healthy, read_full, feed, wrote, short_read, read_full-feed, write_lem,
}
use gorpcbench.Binutils.{read_int64, write_int64}

-- A sequence of numbers on the wire.
unfoldable pub words : List ℕ → List ℕ
words [] = []
words (v ∷ vs) = put_uint64 v ++ words vs

pub words-append : (vs ws : List ℕ) → words (vs ++ ws) ≡ words vs ++ words ws
unfolding words
words-append [] ws = refl
words-append (v ∷ vs) ws = rw (words-append vs ws, append_assoc)

pub length-words : (vs : List ℕ) → length (words vs) ≡ 8 * length vs
unfolding words
length-words [] = refl
length-words (v ∷ vs) =
    omega (arith, length-append (put_uint64 v) (words vs), length-put_uint64 v, length-words vs)

pub wrote-wrote : (xs ys : List ℕ) (c : Conn) → wrote ys (wrote xs c) ≡ wrote (xs ++ ys) c
wrote-wrote xs ys c = ap (λ b. record c { buffered = b }) (append_assoc c.buffered xs ys)

pub wrote-nil : (c : Conn) → wrote [] c ≡ c
wrote-nil c = ap (λ b. record c { buffered = b }) (append-nil c.buffered)

-- `ReadInt64` reads an `int64` back from its eight bytes, and leaves whatever follows.
pub read_int64-feed :
    (v : ℕ) (rest : List ℕ) (c : Conn)
    → IsInt64 v
    → read_int64 (feed (put_uint64 v ++ rest) c) ≡ (ok v, feed rest c)
unfolding read_int64
read_int64-feed v rest c h =
    rw (read_full-feed (put_uint64 v) rest 8 c (length-put_uint64 v), uint64-put_uint64 v h)

pub write_int64_lem :
    (v : ℕ) (c : Conn) → c.health ≡ healthy → write_int64 v c ≡ (ok tt, wrote (put_uint64 v) c)
unfolding write_int64
write_int64_lem v c h = write_lem (put_uint64 v) c h

-- With fewer than 8 bytes to come `ReadInt64` fails, and takes what there is.
pub read_int64_short :
    (bs : List ℕ) (c : Conn)
    → length bs < 8
    → read_int64 (feed bs c) ≡ (err (short_read bs c.last), feed [] c)
unfolding read_int64 read_full
read_int64_short bs c h = rw (lt→leb_false 8 (length bs) h)
