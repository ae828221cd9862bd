-- ===== src/Security/Examples.antt =====
-- Tests of the models of src/mini_rag/security, and the theorems at concrete inputs.
use mini_enterprise_rag_agen.Common.{
  split_dot, String, ◌≡◌, ◌≢◌, refl, true, false, ◌&&◌, ◌||◌, Option, none, some, List, [], ◌∷◌,
  map, eq_iff, mem, lookup, strip, lower, is_empty, ◌+++◌, keys, sorted, to_set, filter, filter_map,
  strip_prefix?, values,
}
use mini_enterprise_rag_agen.Security.Permissions.{
  RolePolicy, RolePolicyMap, normalize_role, can_access_endpoint, normalize_action,
  can_use_tool_action, can_use_tool, get_allowed_tool_actions, role_actions, actions_of, policy_of,
  policy_actions, allowed_actions_from_role_policy, get_allowed_kbs, filter_allowed_kbs,
  assert_can_access_kbs, granted, normalize_kb_ids, tool_permissions, default_role_policy,
}
use mini_enterprise_rag_agen.Security.Permissions.Laws.{restricted_endpoints}
use mini_enterprise_rag_agen.Security.Permissions.Tools.{
  can_use_tool_action-calendar, get_allowed_tool_actions-policy,
}
use mini_enterprise_rag_agen.Security.Permissions.Bases.{
  is_open, IsVerdict, mem-filter_allowed_kbs, assert_can_access_kbs_sound,
  assert_can_access_kbs-finance,
}
use mini_enterprise_rag_agen.Security.AuthStore.{
  is_valid_tool_policy_spec, normalize_tool_policy_specs,
}

-- What runs the permission tables.
pub tables : Unit {0}
unfolding normalize_role can_access_endpoint normalize_action can_use_tool_action
    get_allowed_tool_actions role_actions actions_of policy_of policy_actions
    allowed_actions_from_role_policy get_allowed_kbs filter_allowed_kbs assert_can_access_kbs
    normalize_kb_ids mem lookup strip lower keys sorted to_set filter filter_map strip_prefix?
    default_role_policy tool_permissions values is_valid_tool_policy_spec
    normalize_tool_policy_specs
tables = tt

roles_tests :
    (normalize_role (some " HR ") ≡ "hr")
    × (normalize_role none ≡ "user")
    × (normalize_role (some "root") ≡ "guest")
unfolding tables
roles_tests = (refl, refl, refl)

abbrev reader_policy : RolePolicyMap
reader_policy = some (
    (
      "admin",
      record {
        role = "admin";
        allowed_kbs = "hr" ∷ [];
        allowed_tools = " manage_company_calendar.query" ∷ "skill" ∷ [];
      },
    )
    ∷ [])

policy_tests :
    (get_allowed_tool_actions (some "admin") "manage_company_calendar" reader_policy ≡ "query" ∷ [])
    × (get_allowed_tool_actions (some "admin") "skill" reader_policy ≡ "run" ∷ [])
    × (get_allowed_tool_actions (some "hr") "manage_company_calendar" none ≡ "query" ∷ [])
    × (can_use_tool_action (some "hr") "manage_company_calendar" (some "Delete") none ≡ false)
    × (can_use_tool_action (some "Admin") "manage_company_calendar" (some "Delete") none ≡ true)
unfolding tables
policy_tests = (refl, refl, refl, refl, refl)

kbs_tests :
    (filter_allowed_kbs (some "it") (some ("finance" ∷ "IT " ∷ "it" ∷ [])) none ≡ "it" ∷ [])
    × (filter_allowed_kbs (some "hr") none none ≡ "hr" ∷ "public" ∷ [])
unfolding tables
kbs_tests = (refl, refl)

default_policy_test :
    (default_role_policy "guest").allowed_tools
    ≡ "get_current_datetime" ∷ "search_knowledge_base" ∷ "skill" ∷ []
unfolding tables can_use_tool
default_policy_test = refl

specs_test :
    normalize_tool_policy_specs
      ("skill.run" ∷ "skill" ∷ " skill " ∷ "rm" ∷ "manage_company_calendar.drop" ∷ [])
    ≡ "skill" ∷ "skill.run" ∷ []
unfolding tables split_dot
specs_test = refl

restricted : mem "trace" restricted_endpoints ≡ true
unfolding mem
restricted = refl

may_delete :
    can_use_tool_action (some "Admin") "manage_company_calendar" (some "Delete") none ≡ true
unfolding tables
may_delete = refl

delete_is_no_query : normalize_action (some "Delete") ≢ "query"
unfolding tables
delete_is_no_query e = cc ((eq_iff "delete" "query").1 e)

can_use_tool_action-calendar_example : normalize_role (some "Admin") ≡ "admin"
can_use_tool_action-calendar_example =
    can_use_tool_action-calendar (some "Admin") (some "Delete") none may_delete delete_is_no_query

abbrev stored_policy : RolePolicy
stored_policy = record {
  role = "admin";
  allowed_kbs = "hr" ∷ [];
  allowed_tools = " manage_company_calendar.query" ∷ "skill" ∷ [];
}

policy_found : policy_of reader_policy (normalize_role (some "admin")) ≡ some stored_policy
unfolding tables
policy_found = refl

get_allowed_tool_actions-policy_example :
    mem "delete" (get_allowed_tool_actions (some "admin") "manage_company_calendar" reader_policy)
    ≡ (mem "delete"
          (role_actions (normalize_role (some "admin")) (actions_of "manage_company_calendar"))
        && (mem "manage_company_calendar" (map strip stored_policy.allowed_tools)
            || mem
                ("manage_company_calendar" +++ "." +++ "delete")
                (map strip stored_policy.allowed_tools)))
get_allowed_tool_actions-policy_example =
    get_allowed_tool_actions-policy (some "admin") "manage_company_calendar" "delete" reader_policy
      stored_policy policy_found

mem-filter_allowed_kbs_example :
    mem "finance" (filter_allowed_kbs (some "hr") (some ("finance" ∷ [])) none) ≡ (
      mem "finance" (get_allowed_kbs (some "hr") none)
      && (is_empty (normalize_kb_ids (some ("finance" ∷ [])))
          || mem "finance" (normalize_kb_ids (some ("finance" ∷ [])))))
mem-filter_allowed_kbs_example =
    mem-filter_allowed_kbs (some "hr") (some ("finance" ∷ [])) none "finance"

abbrev show_none : Option (List String) → String
show_none ids = ""

abbrev hr_ids : List String
hr_ids = "hr" ∷ "public" ∷ []

assert_can_access_kbs_sound_example :
    IsVerdict
      (is_open (some "hr") none none)
      (assert_can_access_kbs show_none (some "hr") none none)
assert_can_access_kbs_sound_example = assert_can_access_kbs_sound show_none (some "hr") none none

hr_granted : assert_can_access_kbs show_none (some "hr") none none ≡ granted ("hr" ∷ "public" ∷ [])
unfolding tables
hr_granted = refl

hr_is_no_admin : normalize_role (some "hr") ≢ "admin"
unfolding tables
hr_is_no_admin e = cc ((eq_iff "hr" "admin").1 e)

hr_is_not_finance : normalize_role (some "hr") ≢ "finance"
unfolding tables
hr_is_not_finance e = cc ((eq_iff "hr" "finance").1 e)

assert_can_access_kbs-finance_example : mem "finance" ("hr" ∷ "public" ∷ []) ≡ false
assert_can_access_kbs-finance_example =
    assert_can_access_kbs-finance show_none (some "hr") none ("hr" ∷ "public" ∷ []) hr_granted
      hr_is_no_admin hr_is_not_finance
