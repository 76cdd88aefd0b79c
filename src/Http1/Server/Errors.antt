-- ===== src/Http1/Server/Errors.antt =====
-- What the handlers answer to any request at all, broken ones included.
use gorpcbench.Prelude.{
  ◌≡◌, refl, ap, arith, leb, if◌then◌else◌, [], length, take, drop, length-drop, true, false,
  Bool-cases, inl, inr,
}
use gorpcbench.Go.Int64.{add64}
use gorpcbench.Go.Errors.{Result, ok, err}
use gorpcbench.Go.Binary.{put_uint64, uint64}
use gorpcbench.Go.Conn.{Conn, read_full, short_read}
use gorpcbench.Binutils.{read_int64}
use gorpcbench.Binutils.Numbers.{write_int64_lem}
use gorpcbench.Http1.Server.{
  Request, empty_response, bodies, is_json, read_pair, handle_add, written,
}
use gorpcbench.Http1.Server.Replies.{ok_response}

read_int64_full :
    (c : Conn)
    → leb 8 (length c.pending) ≡ true
    → read_int64 c ≡ (ok (uint64 (take 8 c.pending)), record c { pending = drop 8 c.pending })
unfolding read_int64 read_full
read_int64_full c h = rw h refl

read_int64_short :
    (c : Conn)
    → leb 8 (length c.pending) ≡ false
    → read_int64 c ≡ (err (short_read c.pending c.last), record c { pending = [] })
unfolding read_int64 read_full
read_int64_short c h = rw h refl

rest : Request → Conn
rest r = record (bodies r) { pending = drop 8 r.body }

-- What `handleAdd` answers, whatever the request: status 400 to a request of JSON type and to a body
-- of fewer than 16 bytes, and otherwise status 200 and the sum of the first two numbers, whatever
-- comes behind them.
pub handle_add_total :
    (r : Request)
    → handle_add r ≡ (
        if is_json r
        then empty_response 400
        else if leb 16 (length r.body)
        then ok_response
            (put_uint64 (add64 (uint64 (take 8 r.body)) (uint64 (take 8 (drop 8 r.body)))))
        else empty_response 400)
unfolding handle_add read_pair rest
handle_add_total r = elim (Bool-cases (is_json r)) [
  | inl json ↦ rw json refl
  | inr plain ↦ elim (Bool-cases (leb 16 (length r.body))) [
    | inl enough ↦
        rw
          (
            plain,
            enough,
            read_int64_full (bodies r) (ground arith),
            read_int64_full (rest r) (ground (arith, length-drop 8 r.body)),
          )
          (ap (λ (q : Result (Unit {0}) × Conn). written q.1)
            (write_int64_lem (add64 (uint64 (take 8 r.body)) (uint64 (take 8 (drop 8 r.body)))) _
              refl))
    | inr short ↦ elim (Bool-cases (leb 8 (length r.body))) [
      | inl one ↦
          rw
            (
              plain,
              short,
              read_int64_full (bodies r) one,
              read_int64_short (rest r) (ground (arith, length-drop 8 r.body)),
            )
            refl
      | inr none ↦ rw (plain, short, read_int64_short (bodies r) none) refl
    ]
  ]
]
