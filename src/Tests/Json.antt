-- ===== src/Tests/Json.antt =====
-- A JSON text as the value that it was made of, and the JSON messages over it.
use gorpcbench.Prelude.{ℕ, ◌≤◌, ◌≡◌, refl, arith, List, [], ◌∷◌, Option, some, none, length, ◌↔◌}
use gorpcbench.Go.Errors.{text, Result, ok, err}
use gorpcbench.Rpcbench.Tree.{TreeNodeImpl}
use gorpcbench.Rpcbench.Client.{IsCorrect}
use gorpcbench.Jsonutils.{
  AddRequest, AddResponse, MultTreeRequest, Message, Payload, nothing, to_add, to_mult, to_encode,
  Json, ReadsBack, raw_payload,
}
use gorpcbench.Websocket.Session
use gorpcbench.Websocket.Session.Correct
use gorpcbench.Rpcbench.Limits.{max_hex_encode_size}
use gorpcbench.Websocket.Json.{Memory, round}
use gorpcbench.Websocket.Json.Rounds.{hex_mail, hex_round_iff}
use gorpcbench.Websocket.Json.Session.{mailbox, json_client}
use gorpcbench.Websocket.Json.Correct.{IsReady, json_client-IsCorrect}

data Doc : Type 0 where
  add_doc : AddRequest → Doc
  sum_doc : AddResponse → Doc
  request_doc : ℕ → TreeNodeImpl → Doc
  tree_doc : TreeNodeImpl → Doc
  bytes_doc : List ℕ → Doc
  bare_doc : ℕ → Doc
  message_doc : ℕ → Doc → Doc

abbrev wrapped : ℕ → Option Doc → Doc
wrapped n none = bare_doc n
wrapped n (some d) = message_doc n d

abbrev packed : Payload → Option Doc
packed nothing = none
packed (to_add r) = some (add_doc r)
packed (to_mult m t) = some (request_doc m t)
packed (to_encode bs) = some (bytes_doc bs)

abbrev as_message : Doc → Message Doc → Result (Unit {0}) × Message Doc
as_message (bare_doc n) old = (ok tt, record { command = n; payload = old.payload })
as_message (message_doc n d) old = (ok tt, record { command = n; payload = some d })
as_message _ old = (err (text "no message"), old)

abbrev as_add_request : Doc → AddRequest → Result (Unit {0}) × AddRequest
as_add_request (add_doc r) old = (ok tt, r)
as_add_request _ old = (err (text "no request"), old)

abbrev as_add_response : Doc → AddResponse → Result (Unit {0}) × AddResponse
as_add_response (sum_doc r) old = (ok tt, r)
as_add_response _ old = (err (text "no sum"), old)

abbrev as_request : Doc → MultTreeRequest → Result (Unit {0}) × MultTreeRequest
as_request (request_doc m t) old = (ok tt, record { mult = m; tree = some t })
as_request _ old = (err (text "no request"), old)

abbrev as_tree : Doc → TreeNodeImpl → Result (Unit {0}) × TreeNodeImpl
as_tree (tree_doc t) old = (ok tt, t)
as_tree _ old = (err (text "no tree"), old)

abbrev as_bytes : Doc → List ℕ → Result (Unit {0}) × List ℕ
as_bytes (bytes_doc bs) old = (ok tt, bs)
as_bytes _ old = (err (text "no bytes"), old)

abbrev values : Json
values = record {
  Doc = Doc;
  marshal_out_message = λ o. wrapped o.command (packed o.payload);
  marshal_message = λ m. wrapped m.command m.payload;
  marshal_add_request = add_doc;
  marshal_add_response = sum_doc;
  marshal_request = request_doc;
  marshal_tree = tree_doc;
  marshal_bytes = bytes_doc;
  unmarshal_message = as_message;
  unmarshal_add_request = as_add_request;
  unmarshal_add_response = as_add_response;
  unmarshal_request = as_request;
  unmarshal_tree = as_tree;
  unmarshal_bytes = as_bytes;
}

reads_out :
    (n : ℕ) (p : Payload) (old : Message Doc)
    → as_message (wrapped n (packed p)) old
      ≡ (ok tt, record { command = n; payload = raw_payload values p old.payload })
reads_out n nothing old = refl
reads_out n (to_add r) old = refl
reads_out n (to_mult m t) old = refl
reads_out n (to_encode bs) old = refl

reads_message :
    (n : ℕ) (p : Option Doc) (old : Message Doc)
    → (m : Message Doc) × (as_message (wrapped n p) old ≡ (ok tt, m))
reads_message n none old = (record { command = n; payload = old.payload }, refl)
reads_message n (some d) old = (record { command = n; payload = some d }, refl)

values-ReadsBack : ReadsBack values (λ v. Unit)
values-ReadsBack = record {
  allowed_shape = λ v u same h. tt;
  out_message = λ o old h. reads_out o.command o.payload old;
  message = λ m old. reads_message m.command m.payload old;
  add_request = λ r old ha hb. refl;
  add_response = λ r old h. refl;
  request = λ m t old hm ht h. (t, refl, refl);
  tree = λ t old ht h. (t, refl, refl);
  bytes = λ bs old h. refl;
}

json_client-IsCorrect_example : IsCorrect (json_client values (λ v. Unit)) (IsReady values)
json_client-IsCorrect_example = json_client-IsCorrect values (λ v. Unit) values-ReadsBack

ws_client-IsCorrect_example : IsCorrect (Session.ws_client (λ n. 0)) Correct.IsReady
ws_client-IsCorrect_example = Correct.ws_client-IsCorrect (λ n. 0)

abbrev blank : Memory values
blank = record {
  msg = record { command = 0; payload = none };
  add_req = record { a = 0; b = 0 };
  mult_req = record { mult = 0; tree = none };
  hex_in = [];
}

abbrev one_byte : List ℕ
one_byte = 171 ∷ []

hex_round_iff_example :
    ((round values (mailbox values) (blank, hex_mail values one_byte)).0 ≡ ok tt)
    ↔ (length one_byte ≤ max_hex_encode_size)
hex_round_iff_example =
    hex_round_iff values (λ v. Unit) values-ReadsBack one_byte blank (omega arith, tt)
