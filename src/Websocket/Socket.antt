-- ===== src/Websocket/Socket.antt =====
-- What the system uses of github.com/gorilla/websocket on one connection. A message is read whole
-- or written whole; `next_writer` also says how writing to the new message will go.
use gorpcbench.Prelude.{ℕ, List, []}
use gorpcbench.Go.Errors.{eof, Result}
use gorpcbench.Go.Conn.{Conn, Health}

pub record Socket : Type 1 where
  pub Line : Type 0
  pub next_reader : Line → Result (List ℕ) × Line
  pub next_writer : Line → Result Health × Line
  pub close_writer : List ℕ → Line → Result (Unit {0}) × Line

-- A message to read, and one to write, as the two sides of a connection.
abbrev pub messages : (ℕ → ℕ) → List ℕ → Health → Conn
messages grant bs h = record {
  pending = bs;
  grant = grant;
  last = eof;
  buffered = [];
  sent = [];
  health = h;
}
