-- ===== src/Tests/Messages.antt =====
-- The binary messages over a socket that loses nothing.
use gorpcbench.Prelude.{ℕ, ◌≡◌, refl, List, [], ◌∷◌, ◌++◌}
use gorpcbench.Go.Errors.{Result, eof, ok, err}
use gorpcbench.Go.Conn.{healthy, feed}
use gorpcbench.Tcp.Server
use gorpcbench.Websocket.Socket.{Socket}
use gorpcbench.Websocket.Binary.{to_hex_loop}
use gorpcbench.Websocket.Binary.Serve.{to_hex_loop-same}
use gorpcbench.Websocket.Binary.Rounds.{Request, to_hex}
use gorpcbench.Tests.{slow}

-- The messages that came, and those that were sent.
abbrev Messages : Type 0
Messages = List (List ℕ) × List (List ℕ)

abbrev next : Messages → Result (List ℕ) × Messages
next ([], out) = (err eof, ([], out))
next (m ∷ ms, out) = (ok m, (ms, out))

abbrev socket : Socket
socket = record {
  Line = Messages;
  next_reader = next;
  next_writer = λ l. (ok healthy, l);
  close_writer = λ m l. (ok tt, (l.0, l.1 ++ m ∷ []));
}

abbrev question : Request
question = to_hex (171 ∷ 255 ∷ [])

to_hex_loop-same_example :
    to_hex_loop 2 2 (feed (171 ∷ 255 ∷ []) slow)
    ≡ Server.to_hex_loop 2 2 (feed (171 ∷ 255 ∷ []) slow)
to_hex_loop-same_example = to_hex_loop-same 2 2 (feed (171 ∷ 255 ∷ []) slow) refl
