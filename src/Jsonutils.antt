-- ===== src/Jsonutils.antt =====
-- internal/jsonutils/jsonutils.go: the types of the messages, and what the system uses of
-- `encoding/json` on them.
use gorpcbench.Prelude.{ℕ, ◌≡◌, List, Option, some, All}
use gorpcbench.Go.Int64.{IsInt64}
use gorpcbench.Go.Binary.{IsByte}
use gorpcbench.Go.Errors.{Result, ok}
use gorpcbench.Rpcbench.Values.{Tree, SameShape, InRange}
use gorpcbench.Rpcbench.Tree.{TreeNodeImpl}
use gorpcbench.Rpcbench.Tree.View.{view}

abbrev pub cmd_nop : ℕ
cmd_nop = 0

abbrev pub cmd_add : ℕ
cmd_add = 1

abbrev pub cmd_mult_tree : ℕ
cmd_mult_tree = 2

abbrev pub cmd_to_hex : ℕ
cmd_to_hex = 3

pub record AddRequest : Type 0 where
  pub a : ℕ
  pub b : ℕ

pub record AddResponse : Type 0 where
  pub res : ℕ

-- The tree is behind a pointer, which may be nil.
pub record MultTreeRequest : Type 0 where
  pub mult : ℕ
  pub tree : Option TreeNodeImpl

-- A raw payload is a JSON value as text, `Doc`, or nil.
pub record Message (Doc : Type 0) : Type 0 where
  pub command : ℕ
  pub payload : Option Doc

-- The values that the code puts into the field of type `any`.
pub data Payload : Type 0 where
  nothing : Payload
  to_add : AddRequest → Payload
  to_mult : ℕ → TreeNodeImpl → Payload
  to_encode : List ℕ → Payload

pub record OutMessage : Type 0 where
  pub command : ℕ
  pub payload : Payload

-- `json.Marshal` of each type, and `json.Unmarshal` into a value that is there already.
pub record Json : Type 1 where
  pub Doc : Type 0
  pub marshal_out_message : OutMessage → Doc
  pub marshal_message : Message Doc → Doc
  pub marshal_add_request : AddRequest → Doc
  pub marshal_add_response : AddResponse → Doc
  pub marshal_request : ℕ → TreeNodeImpl → Doc
  pub marshal_tree : TreeNodeImpl → Doc
  pub marshal_bytes : List ℕ → Doc
  pub unmarshal_message : Doc → Message Doc → Result (Unit {0}) × Message Doc
  pub unmarshal_add_request : Doc → AddRequest → Result (Unit {0}) × AddRequest
  pub unmarshal_add_response : Doc → AddResponse → Result (Unit {0}) × AddResponse
  pub unmarshal_request : Doc → MultTreeRequest → Result (Unit {0}) × MultTreeRequest
  pub unmarshal_tree : Doc → TreeNodeImpl → Result (Unit {0}) × TreeNodeImpl
  pub unmarshal_bytes : Doc → List ℕ → Result (Unit {0}) × List ℕ

-- `omitempty` leaves a nil payload out, and a message without one leaves the old payload there.
abbrev pub raw_payload : (j : Json) → Payload → Option j.Doc → Option j.Doc
raw_payload j nothing old = old
raw_payload j (to_add r) old = some (j.marshal_add_request r)
raw_payload j (to_mult m t) old = some (j.marshal_request m t)
raw_payload j (to_encode bs) old = some (j.marshal_bytes bs)

-- The numbers are in the ranges of their Go types, and the tree is allowed.
abbrev pub FitsJson : (Tree → Type 0) → Payload → Type 0
FitsJson Allowed nothing = Unit
FitsJson Allowed (to_add r) = IsInt64 r.a × IsInt64 r.b
FitsJson Allowed (to_mult m t) = IsInt64 m × InRange (view t) × Allowed (view t)
FitsJson Allowed (to_encode bs) = All IsByte bs

-- What was written is read back, whatever the target holds before. `Allowed` says which trees are
-- within the depth of nesting that the decoder takes.
pub record ReadsBack (j : Json) (Allowed : Tree → Type 0) : Type 0 where
  pub allowed_shape : (v u : Tree) → SameShape v u → Allowed v → Allowed u
  pub out_message :
      (o : OutMessage) (old : Message j.Doc)
      → FitsJson Allowed o.payload
      → j.unmarshal_message (j.marshal_out_message o) old
        ≡ (ok tt, record { command = o.command; payload = raw_payload j o.payload old.payload })
  pub message :
      (m old : Message j.Doc)
      → (m' : Message j.Doc) × (j.unmarshal_message (j.marshal_message m) old ≡ (ok tt, m'))
  pub add_request :
      (r old : AddRequest)
      → IsInt64 r.a
      → IsInt64 r.b
      → j.unmarshal_add_request (j.marshal_add_request r) old ≡ (ok tt, r)
  pub add_response :
      (r old : AddResponse)
      → IsInt64 r.res
      → j.unmarshal_add_response (j.marshal_add_response r) old ≡ (ok tt, r)
  pub request :
      (m : ℕ) (t : TreeNodeImpl) (old : MultTreeRequest)
      → IsInt64 m
      → InRange (view t)
      → Allowed (view t)
      → (t' : TreeNodeImpl) × (j.unmarshal_request (j.marshal_request m t) old
          ≡ (ok tt, record { mult = m; tree = some t' }))
        × (view t' ≡ view t)
  pub tree :
      (t old : TreeNodeImpl)
      → InRange (view t)
      → Allowed (view t)
      → (t' : TreeNodeImpl) × (j.unmarshal_tree (j.marshal_tree t) old ≡ (ok tt, t'))
        × (view t' ≡ view t)
  pub bytes :
      (bs old : List ℕ) → All IsByte bs → j.unmarshal_bytes (j.marshal_bytes bs) old ≡ (ok tt, bs)
