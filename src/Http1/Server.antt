-- ===== src/Http1/Server.antt =====
-- internal/rpc/http1/http1_server.go: the handlers, and the paths that `newHttp1Server` gives them.
-- A handler is a function of the request to the response; `net/http` supplies the former and sends
-- the latter.
pub mod Replies
pub mod Errors
use gorpcbench.Prelude.{
  ℕ, ◌-◌, ◌*◌, ◌/◌, List, [], ◌++◌, length, take, Bool, true, false, String, if◌then◌else◌,
}
use text.Mathlib.Text.{◌==◌}
use gorpcbench.Go.Int64.{add64}
use gorpcbench.Go.Errors.{Error, eof, is_eof, Result, ok, err, stuck}
use gorpcbench.Go.Io.{Io, pure, raise, continue, ◌>>=◌, ◌>>◌}
use gorpcbench.Go.Hex.{encode}
use gorpcbench.Go.Conn.{Conn, healthy, write, flush}
use gorpcbench.Binutils.{read_int64, write_int64, do_mult_tree_request}

-- `duplex` is what `EnableFullDuplex` answers, and `grant` how the body arrives.
pub record Request : Type 0 where
  pub path : String
  pub content_type : String
  pub body : List ℕ
  pub grant : ℕ → ℕ
  pub duplex : Result (Unit {0})

pub record Response : Type 0 where
  pub status : ℕ
  pub body : List ℕ

abbrev pub empty_response : ℕ → Response
empty_response n = record { status = n; body = [] }

-- The body to read and the body to write, as one connection.
abbrev pub bodies : Request → Conn
bodies r = record {
  pending = r.body;
  grant = r.grant;
  last = eof;
  buffered = [];
  sent = [];
  health = healthy;
}

-- Everything that was written to the response itself.
abbrev pub written : Conn → Response
written c = record { status = 200; body = c.sent ++ c.buffered }

-- What a `bufio.Writer` before the response has sent: what was flushed, and its 4096 bytes each time
-- that a number came when they were full.
abbrev pub flushed_only : Conn → Response
flushed_only c = record {
  status = 200;
  body = c.sent ++ take ((length c.buffered - 1) / 4096 * 4096) c.buffered;
}

abbrev pub is_json : Request → Bool
is_json r = r.content_type == "application/json"

unfoldable pub handle_nop : Request → Response
handle_nop r = empty_response 200

read_pair : Io Conn (ℕ × ℕ)
read_pair = do a ← read_int64; b ← read_int64; pure (a, b)

-- A failed write is logged, and the response is what it is.
abbrev pub add_response : Result (ℕ × ℕ) × Conn → Response
add_response (ok (a, b), c) = written (write_int64 (add64 a b) c).1
add_response (err e, c) = empty_response 400
add_response (stuck, c) = empty_response 500

unfoldable pub handle_add : Request → Response
unfolding read_pair
handle_add r = if is_json r then empty_response 400 else add_response (read_pair (bodies r))

-- Both errors, of the request and of the last flush, end the handler with what was sent.
abbrev pub duplex_response : Result (Unit {0}) → Response → Response
duplex_response (ok x) go = go
duplex_response (err e) go = empty_response 500
duplex_response stuck go = empty_response 500

unfoldable pub handle_mult_tree : Request → Response
handle_mult_tree r =
    if is_json r
    then empty_response 400
    else duplex_response r.duplex (flushed_only ((do do_mult_tree_request; flush) (bodies r)).1)

-- `io.Copy` from the body to the hex encoder: everything up to the end of the body.
copy_hex : Io Conn (Unit {0})
copy_hex c =
    (do
      write (encode c.pending)
      λ d. (if is_eof c.last then ok tt else err c.last, record d { pending = [] }))
      c

unfoldable pub handle_to_hex : Request → Response
unfolding copy_hex
handle_to_hex r =
    if is_json r
    then empty_response 400
    else duplex_response r.duplex (written (copy_hex (bodies r)).1)

unfoldable pub serve : Request → Response
serve r =
    if r.path == "/nop"
    then handle_nop r
    else if r.path == "/add"
    then handle_add r
    else if r.path == "/multTree"
    then handle_mult_tree r
    else if r.path == "/toHex"
    then handle_to_hex r
    else empty_response 404
