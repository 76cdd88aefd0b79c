-- ===== src/Rpcbench/Bench/Matrix.antt =====
-- The matrix of benches.go: every case once, each under a name of its own.
use gorpcbench.Prelude.{
  ℕ, ◌+◌, ◌*◌, ◌≡◌, refl, sym, ap, ◌∙◌, Bool, true, false, String, some, length, get_elem?,
  if◌then◌else◌,
}
use text.Mathlib.Text.{◌==◌}
use gorpcbench.Rpcbench.Calls.{
  ClientCall, nop, add, tree_mult, to_hex, call_name, client_call_matrix,
}
use gorpcbench.Rpcbench.Bench.{
  System, tcp, http1, ws, wsjson, grpc, gocapnp, mdcapnp, mdcapl0, system_name, all_systems,
  BenchCase, case_name, full_test_matrix, over_calls, over_systems,
}

-- The names read back.
named_call : String → ClientCall
named_call s =
    if s == "nop"
    then nop
    else if s == "add"
    then add
    else if s == "tree"
    then tree_mult
    else to_hex

named_system : String → System
named_system s =
    if s == "tcp"
    then tcp
    else if s == "http1"
    then http1
    else if s == "ws"
    then ws
    else if s == "wsjson"
    then wsjson
    else if s == "grpc"
    then grpc
    else if s == "gocapnp"
    then gocapnp
    else if s == "mdcapnp"
    then mdcapnp
    else mdcapl0

named_call-call_name : (c : ClientCall) → named_call (call_name c) ≡ c
unfolding named_call call_name
named_call-call_name nop = refl
named_call-call_name _ = refl

named_system-system_name : (s : System) → named_system (system_name s) ≡ s
unfolding named_system system_name
named_system-system_name tcp = refl
named_system-system_name _ = refl

named_mode : Bool → String
named_mode b = if b then "parallel" else "sequential"

is_parallel : String → Bool
is_parallel s = s == "parallel"

is_parallel-named_mode : (b : Bool) → is_parallel (named_mode b) ≡ b
unfolding is_parallel named_mode
is_parallel-named_mode true = refl
is_parallel-named_mode false = refl

-- Two cases of one name are one case: no benchmark hides another.
pub case_name-injective : (x y : BenchCase) → case_name x ≡ case_name y → x ≡ y
unfolding case_name named_mode
case_name-injective x y h = λ i. record {
  sys =
      (sym (named_system-system_name x.sys)
          ∙ ap (λ (n : String × String × String). named_system n.2) h
          ∙ named_system-system_name y.sys)
        i;
  call =
      (sym (named_call-call_name x.call)
          ∙ ap (λ (n : String × String × String). named_call n.1) h
          ∙ named_call-call_name y.call)
        i;
  parallel =
      (sym (is_parallel-named_mode x.parallel)
          ∙ ap (λ (n : String × String × String). is_parallel n.0) h
          ∙ is_parallel-named_mode y.parallel)
        i;
}

call_place : ClientCall → ℕ
call_place nop = 0
call_place add = 1
call_place tree_mult = 2
call_place to_hex = 3

system_place : System → ℕ
system_place tcp = 0
system_place http1 = 1
system_place ws = 2
system_place wsjson = 3
system_place grpc = 4
system_place gocapnp = 5
system_place mdcapnp = 6
system_place mdcapl0 = 7

-- Sequential cases first, then by call, then by system.
pub place : BenchCase → ℕ
unfolding call_place system_place
place bc = (if bc.parallel then 32 else 0) + call_place bc.call * 8 + system_place bc.sys

at_place :
    (p : Bool) (c : ClientCall) (s : System)
    → get_elem? full_test_matrix (place (record { sys = s; call = c; parallel = p }))
      ≡ some (record { sys = s; call = c; parallel = p })
unfolding full_test_matrix over_calls over_systems all_systems client_call_matrix place
at_place false nop tcp = refl
at_place false nop _ = refl
at_place false add tcp = refl
at_place false add _ = refl
at_place false tree_mult tcp = refl
at_place false tree_mult _ = refl
at_place false to_hex tcp = refl
at_place false to_hex _ = refl
at_place true nop tcp = refl
at_place true nop _ = refl
at_place true add tcp = refl
at_place true add _ = refl
at_place true tree_mult tcp = refl
at_place true tree_mult _ = refl
at_place true to_hex tcp = refl
at_place true to_hex _ = refl

-- The matrix has 64 cases, and every case stands in it at its place.
pub full_test_matrix_complete :
    (length full_test_matrix ≡ 64)
    × ((bc : BenchCase) → get_elem? full_test_matrix (place bc) ≡ some bc)
unfolding full_test_matrix over_calls over_systems all_systems client_call_matrix
full_test_matrix_complete = (refl, λ bc. at_place bc.parallel bc.call bc.sys)
