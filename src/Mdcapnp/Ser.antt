-- ===== src/Mdcapnp/Ser.antt =====
-- What the system uses of matheusd.com/mdcapnp/capnpser: structs to read, and builders of structs to
-- write. A message is a value here; a call that changes a builder in place returns it changed.
use gorpcbench.Prelude.{ℕ, ◌^◌, ◌<◌, ◌≡◌, ◌≢◌, List, map, length, Option, some}
use gorpcbench.Go.Errors.{Result, ok}

-- The number of 64-bit words and of pointers that a struct has.
pub record StructSize : Type 0 where
  pub data_section_size : ℕ
  pub pointer_section_size : ℕ

-- A list has fewer elements than this, and a blob fewer bytes.
abbrev pub max_list : ℕ
max_list = 2 ^ 29

-- Fields have the number of their word or of their pointer. `reader` is the struct as it is read
-- once it is sent. `struct_list` and `struct_at` fail on a malformed pointer or behind a limit.
-- `with_list`, `with_struct` and `with_data` put back what was changed in place, and `list_of` is
-- the list that was last made for a pointer.
pub record Ser : Type 1 where
  pub Struct : Type 0
  pub Builder : StructSize → Type 0
  pub int64 : ℕ → Struct → ℕ
  pub data_at : ℕ → Struct → List ℕ
  pub struct_list : ℕ → Struct → Result (List Struct)
  pub struct_at : ℕ → Struct → Result Struct
  pub depth_limit : ℕ → Struct → Struct
  pub reader : {z : StructSize} → Builder z → Struct
  pub set_int64 : {z : StructSize} → ℕ → ℕ → Builder z → Result (Unit {0}) × Builder z
  pub new_list :
      {z : StructSize} (e : StructSize)
      → ℕ
      → ℕ
      → ℕ
      → Builder z
      → Result (List (Builder e)) × Builder z
  pub list_of : {z : StructSize} (e : StructSize) → ℕ → Builder z → Option (List (Builder e))
  pub with_list : {z : StructSize} (e : StructSize) → ℕ → List (Builder e) → Builder z → Builder z
  pub new_struct :
      {z : StructSize} (e : StructSize) → ℕ → Builder z → Result (Builder e) × Builder z
  pub with_struct : {z : StructSize} (e : StructSize) → ℕ → Builder e → Builder z → Builder z
  pub set_data : {z : StructSize} → ℕ → List ℕ → Builder z → Result (Unit {0}) × Builder z
  pub new_data : {z : StructSize} → ℕ → ℕ → Builder z → Result (List ℕ) × Builder z
  pub with_data : {z : StructSize} → ℕ → List ℕ → Builder z → Builder z
  pub set_int64_lem :
      {z : StructSize} (i v : ℕ) (b : Builder z)
      → i < z.data_section_size
      → (b' : Builder z) × (set_int64 i v b ≡ (ok tt, b'))
        × (int64 i (reader b') ≡ v)
        × ((k : ℕ) → k ≢ i → int64 k (reader b') ≡ int64 k (reader b))
  pub new_list_lem :
      {z : StructSize} (e : StructSize) (i n : ℕ) (b : Builder z)
      → i < z.pointer_section_size
      → n < max_list
      → (bs : List (Builder e)) × (b' : Builder z) × (new_list e i n n b ≡ (ok bs, b'))
        × (length bs ≡ n)
        × (list_of e i b' ≡ some bs)
        × ((k : ℕ) → int64 k (reader b') ≡ int64 k (reader b))
  pub int64-with_list :
      {z : StructSize} (e : StructSize) (i k : ℕ) (bs : List (Builder e)) (b : Builder z)
      → int64 k (reader (with_list e i bs b)) ≡ int64 k (reader b)
  pub list-with_list :
      {z : StructSize} (e : StructSize) (i : ℕ) (old bs : List (Builder e)) (b : Builder z)
      → list_of e i b ≡ some old
      → length bs ≡ length old
      → struct_list i (reader (with_list e i bs b)) ≡ ok (map reader bs)
  pub new_struct_lem :
      {z : StructSize} (e : StructSize) (i : ℕ) (b : Builder z)
      → i < z.pointer_section_size
      → (r : Builder e) × (b' : Builder z) × (new_struct e i b ≡ (ok r, b'))
        × ((k : ℕ) → int64 k (reader b') ≡ int64 k (reader b))
  pub int64-with_struct :
      {z : StructSize} (e : StructSize) (i k : ℕ) (r : Builder e) (b : Builder z)
      → int64 k (reader (with_struct e i r b)) ≡ int64 k (reader b)
  pub struct-with_struct :
      {z : StructSize} (e : StructSize) (i : ℕ) (r : Builder e) (b : Builder z)
      → i < z.pointer_section_size
      → struct_at i (reader (with_struct e i r b)) ≡ ok (reader r)
  pub set_data_lem :
      {z : StructSize} (i : ℕ) (bs : List ℕ) (b : Builder z)
      → i < z.pointer_section_size
      → length bs < max_list
      → (b' : Builder z) × (set_data i bs b ≡ (ok tt, b')) × (data_at i (reader b') ≡ bs)
  pub new_data_lem :
      {z : StructSize} (i n : ℕ) (bs : List ℕ) (b : Builder z)
      → i < z.pointer_section_size
      → n < max_list
      → length bs ≡ n
      → (buf : List ℕ) × (b' : Builder z) × (new_data i n b ≡ (ok buf, b'))
        × (length buf ≡ n)
        × (data_at i (reader (with_data i bs b')) ≡ bs)
