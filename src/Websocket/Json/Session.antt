-- ===== src/Websocket/Json/Session.antt =====
-- The JSON client joined to `runJsonConn`, as a client of the benchmark.
use gorpcbench.Rpcbench.TreeNode.{StandsFor}
use gorpcbench.Prelude.{List, [], ◌∷◌, ◌++◌, Bool, true, false, if◌then◌else◌}
use gorpcbench.Go.Errors.{Result, eof, ok, err, stuck}
use gorpcbench.Rpcbench.Values.{Tree}
use gorpcbench.Rpcbench.Tree.{TreeNodeImpl}
use gorpcbench.Rpcbench.Tree.Nodes.{tree_node_impl, impl_reader}
use gorpcbench.Rpcbench.Client.{Client}
use gorpcbench.Jsonutils.{Json}
use gorpcbench.Websocket.Json.{TextSocket, Memory, Server, round}
use gorpcbench.Websocket.Json.Client.{State, nop, add, mult_tree_values, to_hex}

module _ (j : Json) where
  -- The server's end for one round: the messages that came, and those that it sent.
  abbrev pub Mail : Type 0
  Mail = List j.Doc × List j.Doc

  abbrev pub next_mail : Mail → Result j.Doc × Mail
  next_mail ([], sent) = (err eof, ([], sent))
  next_mail (d ∷ ds, sent) = (ok d, (ds, sent))

  abbrev pub mailbox : TextSocket j.Doc
  mailbox = record {
    Line = Mail;
    read_doc = next_mail;
    write_doc = λ d l. (ok tt, (l.0, l.1 ++ d ∷ []));
  }

  -- The client's end: the answers that wait, and the server, which may have ended.
  pub record Line : Type 0 where
    pub answers : List j.Doc
    pub memory : Memory j
    pub running : Bool

  abbrev pub served : List j.Doc → Result (Unit {0}) × Server j mailbox → Line
  served old (ok x, (s, (got, sent))) = record { answers = old ++ sent; memory = s; running = true }
  served old (err e, (s, (got, sent))) = record {
    answers = old ++ sent;
    memory = s;
    running = false;
  }
  served old (stuck, (s, (got, sent))) = record {
    answers = old ++ sent;
    memory = s;
    running = false;
  }

  -- A read with no answer to come waits for ever, or until the server has closed the connection.
  abbrev pub next_answer : List j.Doc → Memory j → Bool → Result j.Doc × Line
  next_answer [] s true = (stuck, record { answers = []; memory = s; running = true })
  next_answer [] s false = (err eof, record { answers = []; memory = s; running = false })
  next_answer (d ∷ ds) s running = (ok d, record { answers = ds; memory = s; running = running })

  -- A message that the client sends is served at once, in one round of the server's loop.
  unfoldable pub deliver : j.Doc → Line → Line
  deliver d l = if l.running then served l.answers (round j mailbox (l.memory, (d ∷ [], []))) else l

  abbrev pub linked : TextSocket j.Doc
  linked = record {
    Line = Line;
    read_doc = λ l. next_answer l.answers l.memory l.running;
    write_doc = λ d l. (ok tt, deliver d l);
  }

  abbrev pub json_client : (Tree → Type 0) → Client
  json_client Allowed = record {
    State = State j linked;
    Args = TreeNodeImpl;
    Res = TreeNodeImpl;
    args = tree_node_impl;
    res = impl_reader;
    Allows = Allowed;
    Filled = StandsFor impl_reader;
    nop = nop j linked;
    add = add j linked;
    mult_tree_values = mult_tree_values j linked;
    to_hex = to_hex j linked;
  }
