-- ===== src/ToolAdapters/TeamPolicy/Merge.antt =====
-- What a team's policy does to the constraints of policies.ts.
use avorelo.Common.{
  String, ◌≡◌, refl, not, ◌&&◌, ◌||◌, Option, none, some, List, [], ◌++◌, arith, contains-append,
  contains-dedup, string_eq,
}
use avorelo.ToolAdapters.Types.{AdapterPolicyConstraints}
use avorelo.ToolAdapters.Policies.{is_adapter_allowed}
use avorelo.ToolAdapters.TeamPolicy.{
  TeamPolicy, is_named, lists, or_else, merge_denied, apply_team_policy_to_constraints,
}

merge_denied-named :
    (a b : Option (List String)) (id : String)
    → is_named (merge_denied a b) id ≡ is_named a id || is_named b id
unfolding merge_denied
merge_denied-named none none id = refl
merge_denied-named none (some ys) id = contains-dedup ys id
merge_denied-named (some xs) none id =
    ground (arith, contains-dedup (xs ++ []) id, contains-append xs [] id)
merge_denied-named (some xs) (some ys) id =
    ground (arith, contains-dedup (xs ++ ys) id, contains-append xs ys id)

-- Under the merged constraints an adapter may be chosen exactly when the policy's list of allowed
-- adapters has it, or, where the policy has none, the constraints' list, and neither list of
-- denied adapters has it.
pub apply_team_policy_to_constraints-allowed :
    (p : TeamPolicy) (base : AdapterPolicyConstraints) (id : String)
    → is_adapter_allowed id (apply_team_policy_to_constraints p base)
      ≡ lists (or_else p.allowed_adapters base.allowed_adapters) id
        && not (is_named base.denied_adapters id)
        && not (is_named p.denied_adapters id)
unfolding is_adapter_allowed apply_team_policy_to_constraints
apply_team_policy_to_constraints-allowed p base id =
    ground (arith, merge_denied-named base.denied_adapters p.denied_adapters id)
