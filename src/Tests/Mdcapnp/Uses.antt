-- ===== src/Tests/Mdcapnp/Uses.antt =====
-- A connection that hands every call to `Call`, and the theorems on it.
use gorpcbench.Prelude.{◌<◌, ◌≡◌, refl, ap, arith, []}
use gorpcbench.Go.Errors.{text, Result, ok, err, stuck}
use gorpcbench.Rpcbench.Values.{tree, empty, size, Widths}
use gorpcbench.Rpcbench.Tree.View.{view}
use gorpcbench.Rpcbench.TreeNode.{StandsFor}
use gorpcbench.Rpcbench.Client.{IsCorrect}
use gorpcbench.Mdcapnp.Ser.{StructSize, max_list}
use gorpcbench.Mdcapnp.Api.{interface_id, add_method_id, a, b, value, children}
use gorpcbench.Mdcapnp.Adapter.{wrap, nil, ReaderAdapter, reset}
use gorpcbench.Mdcapnp.Adapter.Reads.{adapter_reader, reset-StandsFor}
use gorpcbench.Mdcapnp.Server.{Answer, no_results, results, call}
use gorpcbench.Mdcapnp.Server.Trees.{Holds}
use gorpcbench.Mdcapnp.Server.Calls.{add, Asks, Answers, context, call-Answers}
use gorpcbench.Mdcapnp.Client.{Rpc, level0_client}
use gorpcbench.Mdcapnp.Client.Exchange.{Arrives, Delivers}
use gorpcbench.Mdcapnp.Client.Correct.{IsReady, level0_client-IsCorrect}
use gorpcbench.Mdcapnp.Client.Fresh.{mdcapnp_client, mdcapnp_client-IsCorrect}
use gorpcbench.Mdcapnp.Client.Fresh
use gorpcbench.Tests.{small}
use gorpcbench.Tests.Mdcapnp.{Msg, null, msgs, with_int}

abbrev respond : StructSize → Msg
respond z = null

abbrev as_struct : Result (Answer msgs) → Result Msg
as_struct (ok no_results) = err (text "no results")
as_struct (ok (results s)) = ok s
as_struct (err e) = err e
as_struct stuck = stuck

abbrev as_void : Result (Answer msgs) → Result (Unit {0})
as_void (ok ans) = ok tt
as_void (err e) = err e
as_void stuck = stuck

abbrev direct : Rpc msgs
direct = record {
  Line = Unit;
  setup = λ z l. null;
  call_void = λ i m l. (as_void (call msgs 10 (context msgs 10 null respond i m)), l);
  call = λ i m req l. (as_struct (call msgs 10 (context msgs 10 req respond i m)), l);
  no_struct = null;
  no_builder = null;
}

same-Arrives : (s : Msg) → Arrives msgs (λ v. Unit) s s
same-Arrives s = record {
  int64_arrives = λ k. refl;
  data_arrives = λ k. refl;
  field_arrives = λ k t u e h may. (t, e, h);
  tree_arrives = λ u h may. h;
}

direct-Delivers : Delivers msgs direct (λ v. Unit) 10 (λ l. Unit)
direct-Delivers = record {
  allowed_shape = λ v u same h. tt;
  void_delivers = λ m l up. (null, respond, λ e. (l, ap (λ r. (as_void r, l)) e, tt));
  call_delivers = λ m req l up. (
    req,
    respond,
    same-Arrives req,
    λ r e. (r, l, ap (λ o. (as_struct o, l)) e, same-Arrives r, tt),
  );
}

level0_client-IsCorrect_example :
    IsCorrect
      (level0_client msgs direct (λ v. Unit) 10)
      (IsReady msgs direct (λ v. Unit) 10 (λ l. Unit))
level0_client-IsCorrect_example =
    level0_client-IsCorrect msgs direct (λ v. Unit) 10 (λ l. Unit) direct-Delivers

mdcapnp_client-IsCorrect_example :
    IsCorrect
      (mdcapnp_client msgs direct (λ v. Unit) 10)
      (Fresh.IsReady msgs direct (λ v. Unit) 10 (λ l. Unit))
mdcapnp_client-IsCorrect_example =
    mdcapnp_client-IsCorrect msgs direct (λ v. Unit) 10 (λ l. Unit) direct-Delivers

-- The parameters of `Add(2, 3)`.
abbrev two_and_three : Msg
two_and_three = with_int 1 3 (with_int 0 2 null)

two_and_three-Asks : Asks msgs 10 (add 2 3) two_and_three
unfolding a b
two_and_three-Asks = (refl, refl)

call-Answers_example :
    (ans : Answer msgs) × (call msgs 10
        (context msgs 10 two_and_three respond interface_id add_method_id)
      ≡ ok ans)
    × Answers msgs (add 2 3) ans
call-Answers_example = call-Answers msgs 10 two_and_three respond (add 2 3) two_and_three-Asks

small-Widths : Widths (λ n. n < max_list) (view small)
unfolding view
small-Widths = (omega arith, ((omega arith, tt), ((omega arith, tt), tt)))

leaf-Holds : Holds msgs (with_int 0 4 null) (tree 4 empty)
unfolding value children
leaf-Holds = (refl, [], refl, tt)

reset-StandsFor_example :
    (x : ReaderAdapter msgs) × (reset msgs null 1 (wrap (with_int 0 4 null) nil nil) ≡ (ok tt, x))
    × StandsFor (adapter_reader msgs) x (tree 4 empty)
reset-StandsFor_example =
    reset-StandsFor msgs null 1 (tree 4 empty) (with_int 0 4 null) nil nil
      (unfold size in omega arith) leaf-Holds
