-- ===== src/Go/Conn.antt =====
-- One connection as a function sees it through a `bufio.Reader` and a `bufio.Writer`, or through
-- the reader and the writer of one message or body.
use gorpcbench.Prelude.{
  ℕ, zero, suc, ◌+◌, ◌≡◌, refl, List, [], ◌∷◌, ◌++◌, arith, ltb, leb, if◌then◌else◌, length, take,
  drop, min, take-append, drop-append, length-append, le→leb,
}
use gorpcbench.Go.Errors.{Error, eof, unexpected_eof, ok, err}
use gorpcbench.Go.Io.{Io}

-- When writing fails: a write that takes the bytes written so far over `limit` reports the error,
-- and so does a flush of more than `flush_limit` bytes. A writer that failed stays broken.
pub data Health : Type 0 where
  healthy : Health
  failing : (limit flush_limit : ℕ) → Error → Health
  broken : Error → Health

-- `pending` is what the other side has sent and was not read yet, and `last` the error that a read
-- behind it returns. `grant` decides how much a `Read` delivers: one byte more than
-- `grant (length pending)`, at most. `sent` has reached the other side; `buffered` has not.
-- The source's buffers send early when they are full; here all is sent at a flush.
pub record Conn : Type 0 where
  pub pending : List ℕ
  pub grant : ℕ → ℕ
  pub last : Error
  pub buffered : List ℕ
  pub sent : List ℕ
  pub health : Health

read_byte_from : List ℕ → Io Conn ℕ
read_byte_from [] c = (err c.last, c)
read_byte_from (b ∷ bs) c = (ok b, record c { pending = bs })

unfoldable pub read_byte : Io Conn ℕ
unfolding read_byte_from
read_byte c = read_byte_from c.pending c

-- `r.Read(buf)` for a buffer of `n` bytes. An empty buffer takes nothing.
read_from : List ℕ → ℕ → Io Conn (List ℕ)
read_from [] n c = (err c.last, c)
read_from (b ∷ bs) n c =
    let k = min n (suc (c.grant (length (b ∷ bs)))) in
    (ok (take k (b ∷ bs)), record c { pending = drop k (b ∷ bs) })

unfoldable pub read : ℕ → Io Conn (List ℕ)
unfolding read_from
read zero c = (ok [], c)
read (suc n) c = read_from c.pending (suc n) c

-- The error of `io.ReadFull` after some bytes, but too few.
abbrev pub short_read : List ℕ → Error → Error
short_read (b ∷ bs) eof = unexpected_eof
short_read got e = e

-- `io.ReadFull(r, buf)` for a buffer of `n` bytes.
unfoldable pub read_full : ℕ → Io Conn (List ℕ)
read_full n c =
    if leb n (length c.pending)
    then (ok (take n c.pending), record c { pending = drop n c.pending })
    else (err (short_read c.pending c.last), record c { pending = [] })

-- `w.Write(p)`.
write_by : Health → List ℕ → Io Conn (Unit {0})
write_by healthy p c = (ok tt, record c { buffered = c.buffered ++ p })
write_by (failing l f e) p c =
    if ltb l (length c.sent + length c.buffered + length p)
    then (err e, record c { health = broken e })
    else (ok tt, record c { buffered = c.buffered ++ p })
write_by (broken e) p c = (err e, c)

unfoldable pub write : List ℕ → Io Conn (Unit {0})
unfolding write_by
write p c = write_by c.health p c

-- `w.Flush()`, or the end of a message or of a body.
flush_by : Health → Io Conn (Unit {0})
flush_by healthy c = (ok tt, record c { buffered = []; sent = c.sent ++ c.buffered })
flush_by (failing l f e) c =
    if ltb f (length c.sent + length c.buffered)
    then (err e, record c { health = broken e })
    else (ok tt, record c { buffered = []; sent = c.sent ++ c.buffered })
flush_by (broken e) c = (err e, c)

unfoldable pub flush : Io Conn (Unit {0})
unfolding flush_by
flush c = flush_by c.health c

-- The connection with some bytes to read.
abbrev pub feed : List ℕ → Conn → Conn
feed bs c = record c { pending = bs }

-- The connection with some bytes more in its buffer.
abbrev pub wrote : List ℕ → Conn → Conn
wrote bs c = record c { buffered = c.buffered ++ bs }

abbrev pub flushed : Conn → Conn
flushed c = record c { buffered = []; sent = c.sent ++ c.buffered }

pub read_full-feed :
    (xs ys : List ℕ) (n : ℕ) (c : Conn)
    → length xs ≡ n
    → read_full n (feed (xs ++ ys) c) ≡ (ok xs, feed ys c)
unfolding read_full
read_full-feed xs ys n c h = rw (
  ← h,
  le→leb (length xs) (length (xs ++ ys)) (omega (arith, length-append xs ys)),
  take-append xs ys,
  drop-append xs ys,
)

pub write_lem : (p : List ℕ) (c : Conn) → c.health ≡ healthy → write p c ≡ (ok tt, wrote p c)
unfolding write
write_lem p c h = rw (h, write_by)

pub flush_lem : (c : Conn) → c.health ≡ healthy → flush c ≡ (ok tt, flushed c)
unfolding flush
flush_lem c h = rw (h, flush_by)

health-read_from : (bs : List ℕ) (n : ℕ) (c : Conn) → (read_from bs n c).1.health ≡ c.health
unfolding read_from
health-read_from [] n c = refl
health-read_from (b ∷ bs) n c = refl

-- A read leaves the writer as it is.
pub health-read : (n : ℕ) (c : Conn) → (read n c).1.health ≡ c.health
unfolding read
health-read zero c = refl
health-read (suc n) c = health-read_from c.pending (suc n) c
