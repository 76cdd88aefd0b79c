-- ===== src/Websocket/Session.antt =====
-- The binary client of internal/rpc/websocket/ws_client.go joined to `runBinaryConn` of
-- ws_server.go, as a client of the benchmark.
pub mod Correct
use gorpcbench.Rpcbench.TreeNode.{StandsFor}
use gorpcbench.Prelude.{ℕ, List, [], ◌∷◌, ◌++◌, Bool, true, false, if◌then◌else◌}
use gorpcbench.Go.Errors.{Result, eof, ok, err, stuck}
use gorpcbench.Go.Conn.{healthy}
use gorpcbench.Rpcbench.Tree.{TreeNodeImpl}
use gorpcbench.Rpcbench.Tree.Nodes.{tree_node_impl, impl_reader}
use gorpcbench.Rpcbench.Client.{Client}
use gorpcbench.Websocket.Socket.{Socket}
use gorpcbench.Websocket.Binary.{round, nop, add, mult_tree_values, to_hex}

-- The server's end for one round: the messages that came, and those that it sent.
abbrev pub Mail : Type 0
Mail = List (List ℕ) × List (List ℕ)

abbrev pub next_mail : Mail → Result (List ℕ) × Mail
next_mail ([], sent) = (err eof, ([], sent))
next_mail (m ∷ ms, sent) = (ok m, (ms, sent))

abbrev pub mailbox : Socket
mailbox = record {
  Line = Mail;
  next_reader = next_mail;
  next_writer = λ l. (ok healthy, l);
  close_writer = λ m l. (ok tt, (l.0, l.1 ++ m ∷ []));
}

-- The client's end: the answers that wait, and whether the server still runs.
pub record Line : Type 0 where
  pub answers : List (List ℕ)
  pub running : Bool

abbrev pub served : List (List ℕ) → Result (Unit {0}) × Mail → Line
served old (ok x, (got, sent)) = record { answers = old ++ sent; running = true }
served old (err e, (got, sent)) = record { answers = old ++ sent; running = false }
served old (stuck, (got, sent)) = record { answers = old ++ sent; running = false }

-- A read with no answer to come waits for ever, or until the server has closed the connection.
abbrev pub next_answer : List (List ℕ) → Bool → Result (List ℕ) × Line
next_answer [] true = (stuck, record { answers = []; running = true })
next_answer [] false = (err eof, record { answers = []; running = false })
next_answer (m ∷ ms) running = (ok m, record { answers = ms; running = running })

-- A message that the client sends is served at once, in one round of the server's loop.
unfoldable pub deliver : (ℕ → ℕ) → List ℕ → Line → Line
deliver grant m l = if l.running then served l.answers (round mailbox grant (m ∷ [], [])) else l

abbrev pub linked : (ℕ → ℕ) → Socket
linked grant = record {
  Line = Line;
  next_reader = λ l. next_answer l.answers l.running;
  next_writer = λ l. (ok healthy, l);
  close_writer = λ m l. (ok tt, deliver grant m l);
}

pub record State : Type 0 where
  pub line : Line
  pub tree : TreeNodeImpl

abbrev pub with_line {ℓ} : {A : Type ℓ} → TreeNodeImpl → Result A × Line → Result A × State
with_line t (r, l) = (r, record { line = l; tree = t })

abbrev pub with_tree : (Result (Unit {0}) × TreeNodeImpl) × Line → Result TreeNodeImpl × State
with_tree ((ok x, t), l) = (ok t, record { line = l; tree = t })
with_tree ((err e, t), l) = (err e, record { line = l; tree = t })
with_tree ((stuck, t), l) = (stuck, record { line = l; tree = t })

abbrev pub ws_client : (ℕ → ℕ) → Client
ws_client grant = record {
  State = State;
  Args = TreeNodeImpl;
  Res = TreeNodeImpl;
  args = tree_node_impl;
  res = impl_reader;
  Allows = λ v. Unit;
  Filled = StandsFor impl_reader;
  nop = λ s. with_line s.tree (nop (linked grant) grant s.line);
  add = λ a b s. with_line s.tree (add (linked grant) grant a b s.line);
  mult_tree_values =
      λ m fill s. with_tree (mult_tree_values (linked grant) grant m fill s.tree s.line);
  to_hex = λ bs n s. with_line s.tree (to_hex (linked grant) grant bs n s.line);
}
