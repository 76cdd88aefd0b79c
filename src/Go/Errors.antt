-- ===== src/Go/Errors.antt =====
-- Go's `error` values and the (value, error) results.
use gorpcbench.Prelude.{ℕ, Bool, true, false, String}

-- `conn_error` stands for any error of a connection with no name of its own. `formatted` is what
-- `fmt.Errorf` makes with `%v`, and `wrapped` with `%w`; only the latter can be looked through.
pub data Error : Type 0 where
  eof unexpected_eof net_closed canceled server_closed : Error
  conn_error : ℕ → Error
  text : String → Error
  formatted : String → Error → Error
  wrapped : String → Error → Error

-- `errors.Is(e, io.EOF)`, and so on for the other sentinel values.
abbrev pub is_eof : Error → Bool
is_eof eof = true
is_eof (wrapped s e) = is_eof e
is_eof _ = false

abbrev pub is_net_closed : Error → Bool
is_net_closed net_closed = true
is_net_closed (wrapped s e) = is_net_closed e
is_net_closed _ = false

abbrev pub is_canceled : Error → Bool
is_canceled canceled = true
is_canceled (wrapped s e) = is_canceled e
is_canceled _ = false

abbrev pub is_server_closed : Error → Bool
is_server_closed server_closed = true
is_server_closed (wrapped s e) = is_server_closed e
is_server_closed _ = false

-- `stuck` is no Go value: the function does not return, since it panics, or since a loop used up the
-- fuel that the model gave it.
pub data Result {ℓ} (A : Type ℓ) : Type ℓ where
  ok : A → Result A
  err : Error → Result A
  stuck : Result A
