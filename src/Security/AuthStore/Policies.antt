-- ===== src/Security/AuthStore/Policies.antt =====
-- Stored role policies of src/mini_rag/security/auth_store.py, and what the permission checks of
-- src/mini_rag/security/permissions.py make of them.
use mathlib.Core.Path.{ap₂}
use mini_enterprise_rag_agen.Common.{
  ◌+++◌, ℕ, String, ◌≡◌, refl, Bool, true, ◌&&◌, ◌||◌, some, List, [], ◌∷◌, arith, map, eq_iff,
  eq_refl, mem, lookup, strip, to_set, filter, mem-sorted, mem-to_set, mem-filter, strip-strip, ◌∙◌,
  ap,
}
use mini_enterprise_rag_agen.Security.Permissions.{
  RolePolicy, normalize_role, normalize_kb_ids, policy_of, role_actions, actions_of,
  get_allowed_tool_actions, get_allowed_kbs,
}
use mini_enterprise_rag_agen.Security.Permissions.Laws.{normalize_role_idem}
use mini_enterprise_rag_agen.Security.Permissions.Tools.{get_allowed_tool_actions-policy}
use mini_enterprise_rag_agen.Security.Permissions.Bases.{normalize_kb_ids_idem}
use mini_enterprise_rag_agen.Security.AuthStore.{
  done, row_to_policy, is_valid_tool_policy_spec, normalize_tool_policy_specs, list_role_policies,
  update_role_policy,
}
use mini_enterprise_rag_agen.Security.AuthStore.Rows.{PolicyRow, AuthDb, put_policy}

-- The specs that are stored are exactly the trimmed ones that name a known tool or action.
pub mem-normalize_tool_policy_specs :
    (x : String) (specs : List String)
    → mem x (normalize_tool_policy_specs specs)
      ≡ (mem x (map strip specs) && is_valid_tool_policy_spec x)
unfolding normalize_tool_policy_specs
mem-normalize_tool_policy_specs x specs =
    let valid = filter is_valid_tool_policy_spec (map strip specs) in
    mem-sorted x (to_set valid)
    ∙ mem-to_set x valid
    ∙ mem-filter x is_valid_tool_policy_spec (map strip specs)

lookup-put_policy :
    (p : PolicyRow) (ps : List PolicyRow)
    → lookup p.role (map (λ (row : PolicyRow). (row.role, row_to_policy row)) (put_policy p ps))
      ≡ some (row_to_policy p)
unfolding lookup put_policy
lookup-put_policy p [] = ground (arith, eq_refl p.role)
lookup-put_policy p (q ∷ qs) = ground (arith, eq_refl p.role, lookup-put_policy p qs)

update-policy_of :
    (db db' : AuthDb) (role : String) (kbs specs : List String) (now : ℕ) (p : RolePolicy)
    → update_role_policy db role kbs specs now ≡ done p db'
    → policy_of (some (list_role_policies db')) (normalize_role (some role))
      ≡ some (record {
        role = normalize_role (some role);
        allowed_kbs = normalize_kb_ids (some (normalize_kb_ids (some kbs)));
        allowed_tools = normalize_tool_policy_specs specs;
      })
unfolding update_role_policy list_role_policies policy_of row_to_policy
update-policy_of db db' role kbs specs now p h =
    let row : PolicyRow = record {
      role = normalize_role (some role);
      allowed_kbs = normalize_kb_ids (some kbs);
      allowed_tools = normalize_tool_policy_specs specs;
      updated_at = now;
    } in
    ground (arith, lookup-put_policy row db.role_policies, normalize_role_idem (some role))

strip-mem : (y : String) (specs : List String) → mem y (map strip specs) ≡ true → strip y ≡ y
unfolding mem
strip-mem y [] h = cc
strip-mem y (x ∷ xs) h = ground (arith, strip-mem y xs, eq_iff y (strip x), strip-strip x, ap strip)

map_fixed :
    (f : String → String) (xs : List String)
    → ((y : String) → mem y xs ≡ true → f y ≡ y)
    → map f xs ≡ xs
unfolding mem
map_fixed f [] h = refl
map_fixed f (x ∷ xs) h =
    ap₂ ◌∷◌ (h x (ground (arith, eq_refl x))) (map_fixed f xs (λ y m. h y (ground arith)))

stored_specs_trimmed :
    (specs : List String)
    → map strip (normalize_tool_policy_specs specs) ≡ normalize_tool_policy_specs specs
stored_specs_trimmed specs =
    map_fixed strip (normalize_tool_policy_specs specs)
      λ y m. strip-mem y specs (ground (arith, mem-normalize_tool_policy_specs y specs))

-- A spec of an update that is stored: trimmed it is listed, and it names a known tool or action.
abbrev pub stored : List String → String → Bool
stored specs x = mem x (map strip specs) && is_valid_tool_policy_spec x

-- After an update of a role's policy, an action of a tool is allowed to that role exactly if its
-- baseline has the action and the update listed, as a known spec, the tool or "tool.action".
pub get_allowed_tool_actions-update_role_policy :
    (db db' : AuthDb) (role tool a : String) (kbs specs : List String) (now : ℕ) (p : RolePolicy)
    → update_role_policy db role kbs specs now ≡ done p db'
    → mem a (get_allowed_tool_actions (some role) tool (some (list_role_policies db'))) ≡ (
        mem a (role_actions (normalize_role (some role)) (actions_of tool))
        && (stored specs tool || stored specs (tool +++ "." +++ a)))
get_allowed_tool_actions-update_role_policy db db' role tool a kbs specs now p h =
    get_allowed_tool_actions-policy (some role) tool a (some (list_role_policies db')) _
      (update-policy_of db db' role kbs specs now p h)
    ∙ rw (
      stored_specs_trimmed specs,
      mem-normalize_tool_policy_specs tool specs,
      mem-normalize_tool_policy_specs (tool +++ "." +++ a) specs,
    )

-- After an update of a role's policy the knowledge bases of that role are the ones of the update,
-- normalised once.
pub get_allowed_kbs-update_role_policy :
    (db db' : AuthDb) (role : String) (kbs specs : List String) (now : ℕ) (p : RolePolicy)
    → update_role_policy db role kbs specs now ≡ done p db'
    → get_allowed_kbs (some role) (some (list_role_policies db')) ≡ normalize_kb_ids (some kbs)
unfolding get_allowed_kbs
get_allowed_kbs-update_role_policy db db' role kbs specs now p h =
    rw (update-policy_of db db' role kbs specs now p h, get_allowed_kbs)
      (normalize_kb_ids_idem (normalize_kb_ids (some kbs)) ∙ normalize_kb_ids_idem kbs)
