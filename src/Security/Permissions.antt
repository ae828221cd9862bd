-- ===== src/Security/Permissions.antt =====
-- src/mini_rag/security/permissions.py and the catalog of src/mini_rag/ingestion/kb_config.py:
-- the static role tables, role policies, and the decisions on endpoints, tools and knowledge bases.
pub mod Laws
pub mod Tools
pub mod Bases
use mini_enterprise_rag_agen.Common.{
  ◌+++◌, String, Bool, true, false, ◌&&◌, ◌||◌, not, Option, none, some, List, [], ◌∷◌, ◌++◌, map,
  ◌==◌, if◌then◌else◌, strip, lower, or_else, text_or, strip_prefix?, mem, to_set, sorted, filter,
  filter_map, is_empty, flatten, Dict, lookup, lookup_or, keys, values,
}

-- kb_config.py, an entry of `KNOWLEDGE_BASES`.
pub record KbMeta : Type 0 where
  pub name : String
  pub description : String

abbrev pub knowledge_bases : Dict KbMeta
knowledge_bases =
    ("public", record { name = "公共知识库"; description = "全员可访问的公司通用制度、FAQ、组织沟通和知识库说明。" })
    ∷ ("hr", record { name = "人事知识库"; description = "人事、考勤、假勤、培训、绩效、入转调离相关制度。" })
    ∷ ("finance", record { name = "财务知识库"; description = "报销、差旅、采购、预算、发票、财务审批相关制度。" })
    ∷ ("it", record { name = "IT 知识库"; description = "账号权限、API Key、办公网络、IT 资产、故障工单相关规范。" })
    ∷ ("product", record { name = "产品知识库"; description = "产品手册、客户方案、智能客服、工单系统、Agent/RAG 使用规范。" })
    ∷ []

unfoldable pub kb_catalog : List String
unfolding keys
kb_catalog = keys knowledge_bases

-- The loop of `normalize_kb_ids`; `normalized` in order of insertion.
pub normalize_kb_ids_from : List String → List String → List String
normalize_kb_ids_from normalized [] = normalized
normalize_kb_ids_from normalized (item ∷ rest) =
    let kb_id = lower (strip item) in
    normalize_kb_ids_from
      (if mem kb_id kb_catalog && not (mem kb_id normalized)
        then normalized ++ kb_id ∷ []
        else normalized)
      rest

unfoldable pub normalize_kb_ids : Option (List String) → List String
unfolding normalize_kb_ids_from kb_catalog
normalize_kb_ids none = []
normalize_kb_ids (some kb_ids) = normalize_kb_ids_from [] kb_ids

abbrev pub valid_roles : List String
valid_roles = "guest" ∷ "public" ∷ "user" ∷ "employee" ∷ "finance" ∷ "hr" ∷ "it" ∷ "admin" ∷ []

abbrev pub staff_roles : List String
staff_roles = "user" ∷ "employee" ∷ "finance" ∷ "hr" ∷ "it" ∷ "admin" ∷ []

abbrev pub default_role : String
default_role = "user"

abbrev pub role_allowed_kbs : Dict (List String)
role_allowed_kbs =
    ("admin", "public" ∷ "hr" ∷ "finance" ∷ "it" ∷ "product" ∷ [])
    ∷ ("user", "public" ∷ "hr" ∷ "it" ∷ "product" ∷ [])
    ∷ ("employee", "public" ∷ "hr" ∷ "it" ∷ "product" ∷ [])
    ∷ ("finance", "public" ∷ "finance" ∷ [])
    ∷ ("hr", "public" ∷ "hr" ∷ [])
    ∷ ("it", "public" ∷ "it" ∷ [])
    ∷ ("guest", "public" ∷ [])
    ∷ ("public", "public" ∷ [])
    ∷ []

abbrev pub endpoint_permissions : Dict (List String)
endpoint_permissions =
    ("health", valid_roles)
    ∷ ("query", valid_roles)
    ∷ ("chat", valid_roles)
    ∷ ("trace", "admin" ∷ [])
    ∷ ("eval", "admin" ∷ [])
    ∷ ("upload", staff_roles)
    ∷ ("admin_kbs", "admin" ∷ [])
    ∷ ("admin_tools", "admin" ∷ [])
    ∷ ("admin_audit", "admin" ∷ [])
    ∷ []

abbrev pub tool_action_permissions : Dict (Dict (List String))
tool_action_permissions =
    ("search_knowledge_base", ("*", valid_roles) ∷ [])
    ∷ ("get_current_datetime", ("*", valid_roles) ∷ [])
    ∷ ("query_attendance_summary", ("*", staff_roles) ∷ [])
    ∷ (
      "manage_company_calendar",
      ("query", staff_roles)
          ∷ ("create", "admin" ∷ [])
          ∷ ("update", "admin" ∷ [])
          ∷ ("delete", "admin" ∷ [])
          ∷ [],
    )
    ∷ ("skill", ("run", valid_roles) ∷ [])
    ∷ []

-- `TOOL_ACTION_PERMISSIONS.get(tool_name, {})`.
unfoldable pub actions_of : String → Dict (List String)
unfolding lookup
actions_of tool_name = lookup_or tool_name [] tool_action_permissions

pub record PermissionDecision : Type 0 where
  pub allowed : Bool
  pub role : String
  pub resource : String
  pub reason : String

pub record RolePolicy : Type 0 where
  pub role : String
  pub allowed_kbs : List String
  pub allowed_tools : List String

-- `RolePolicyMap | None`; an empty map and `None` act alike.
abbrev pub RolePolicyMap : Type 0
RolePolicyMap = Option (Dict RolePolicy)

unfoldable pub normalize_role : Option String → String
normalize_role role =
    let normalized = lower (strip (text_or role default_role)) in
    if mem normalized valid_roles then normalized else "guest"

unfoldable pub can_access_endpoint : Option String → String → Bool
can_access_endpoint role endpoint_name =
    mem (normalize_role role) (lookup_or endpoint_name [] endpoint_permissions)

-- `role_policies[role]` if there is one.
unfoldable pub policy_of : RolePolicyMap → String → Option RolePolicy
policy_of none role = none
policy_of (some policies) role = lookup role policies

-- The actions of a tool that the specs of one policy name.
unfoldable pub policy_actions : List String → String → List String
policy_actions specs tool_name =
    let allowed_tools = to_set (map strip specs) in
    if mem tool_name allowed_tools
    then keys (actions_of tool_name)
    else filter (λ action. mem action (keys (actions_of tool_name)))
        (to_set (filter_map (strip_prefix? (tool_name +++ ".")) allowed_tools))

unfoldable pub allowed_actions_from_role_policy :
    String → String → RolePolicyMap → Option (List String)
allowed_actions_from_role_policy role tool_name policies =
    elim (policy_of policies (normalize_role (some role))) [
      | none ↦ none
      | some p ↦ some (policy_actions p.allowed_tools tool_name)
    ]

-- `{action for action, roles in action_roles.items() if role in roles}`.
unfoldable pub role_actions : String → Dict (List String) → List String
role_actions role [] = []
role_actions role ((action, roles) ∷ rest) =
    let others = role_actions role rest in if mem role roles then action ∷ others else others

unfoldable pub get_allowed_tool_actions : Option String → String → RolePolicyMap → List String
get_allowed_tool_actions role tool_name policies =
    let role_allowed = role_actions (normalize_role role) (actions_of tool_name) in
    elim (allowed_actions_from_role_policy (normalize_role role) tool_name policies) [
      | none ↦ role_allowed
      | some policy_allowed ↦ filter (λ action. mem action policy_allowed) role_allowed
    ]

-- `str(action or "*").strip().lower() or "*"`.
unfoldable pub normalize_action : Option String → String
normalize_action action = or_else (lower (strip (text_or action "*"))) "*"

unfoldable pub can_use_tool_action : Option String → String → Option String → RolePolicyMap → Bool
can_use_tool_action role tool_name action policies =
    let allowed = get_allowed_tool_actions role tool_name policies in
    mem "*" allowed || mem (normalize_action action) allowed

unfoldable pub can_use_tool : Option String → String → RolePolicyMap → Bool
can_use_tool role tool_name policies =
    not (is_empty (get_allowed_tool_actions role tool_name policies))

unfoldable pub get_allowed_kbs : Option String → RolePolicyMap → List String
get_allowed_kbs role policies = elim (policy_of policies (normalize_role role)) [
  | none ↦ lookup_or (normalize_role role) ("public" ∷ []) role_allowed_kbs
  | some p ↦ normalize_kb_ids (some p.allowed_kbs)
]

unfoldable pub filter_allowed_kbs :
    Option String → Option (List String) → RolePolicyMap → List String
filter_allowed_kbs role requested_kbs policies =
    let allowed = to_set (get_allowed_kbs role policies) in
    let requested = normalize_kb_ids requested_kbs in
    if is_empty requested
    then sorted allowed
    else sorted (filter (λ kb_id. mem kb_id allowed) requested)

-- `PermissionError` is raised as `denied`.
pub data Checked {ℓ} (A : Type ℓ) : Type ℓ where
  granted : A → Checked A
  denied : String → Checked A

-- `requested or requested_kbs`.
abbrev pub or_list : List String → Option (List String) → Option (List String)
or_list xs raw = if is_empty xs then raw else some xs

-- `shown` is the text that an f-string gives to the requested list.
unfoldable pub assert_can_access_kbs :
    (Option (List String) → String)
    → Option String
    → Option (List String)
    → RolePolicyMap
    → Checked (List String)
assert_can_access_kbs shown role requested_kbs policies =
    let allowed_kbs = filter_allowed_kbs role requested_kbs policies in
    if is_empty allowed_kbs
    then denied (
        "role="
        +++ normalize_role role
        +++ " is not allowed to access requested knowledge bases: "
        +++ shown (or_list (normalize_kb_ids requested_kbs) requested_kbs))
    else granted allowed_kbs

unfoldable pub check_endpoint_permission : Option String → String → PermissionDecision
check_endpoint_permission role endpoint_name =
    let r = normalize_role role in
    let allowed = can_access_endpoint (some r) endpoint_name in
    record {
      allowed = allowed;
      role = r;
      resource = endpoint_name;
      reason =
          if allowed
          then "allowed"
          else "role=" +++ r +++ " is not allowed to access endpoint=" +++ endpoint_name;
    }

unfoldable pub check_tool_permission : Option String → String → RolePolicyMap → PermissionDecision
check_tool_permission role tool_name policies =
    let r = normalize_role role in
    let allowed = can_use_tool (some r) tool_name policies in
    record {
      allowed = allowed;
      role = r;
      resource = tool_name;
      reason =
          if allowed
          then "allowed"
          else "role=" +++ r +++ " is not allowed to use tool=" +++ tool_name;
    }

unfoldable pub assert_tool_permission : Option String → String → RolePolicyMap → Checked (Unit {0})
assert_tool_permission role tool_name policies =
    let decision = check_tool_permission role tool_name policies in
    if decision.allowed then granted tt else denied decision.reason

unfoldable pub assert_tool_action_permission :
    Option String → String → Option String → RolePolicyMap → Checked (Unit {0})
assert_tool_action_permission role tool_name action policies =
    let normalized_role = normalize_role role in
    let normalized_action = normalize_action action in
    if can_use_tool_action (some normalized_role) tool_name (some normalized_action) policies
    then granted tt
    else denied (
        "role=" +++ normalized_role +++ " is not allowed to use tool=" +++ tool_name +++ "."
        +++ normalized_action)

pub record KbAccess : Type 0 where
  pub kb_id : String
  pub meta : KbMeta
  pub allowed : Bool

pub record KbSummary : Type 0 where
  pub role : String
  pub allowed_kbs : List String
  pub knowledge_bases : List KbAccess

unfoldable pub knowledge_base_permission_summary : Option String → RolePolicyMap → KbSummary
knowledge_base_permission_summary role policies =
    let r = normalize_role role in
    let allowed_list = get_allowed_kbs (some r) policies in
    record {
      role = r;
      allowed_kbs = allowed_list;
      knowledge_bases =
          map
            (λ (entry : String × KbMeta).
              let access : KbAccess = record {
                kb_id = entry.0;
                meta = entry.1;
                allowed = mem entry.0 allowed_list;
              } in
              access)
            knowledge_bases;
    }

-- `TOOL_PERMISSIONS`: for each tool the sorted union of its actions' roles.
unfoldable pub tool_permissions : Dict (List String)
tool_permissions =
    map
      (λ (entry : String × Dict (List String)).
        (entry.0, sorted (to_set (flatten (values entry.1)))))
      tool_action_permissions

-- `sorted(tool for tool in TOOL_ACTION_PERMISSIONS if can_use_tool(role, tool))`.
unfoldable pub default_role_policy : String → RolePolicy
default_role_policy role =
    let r = normalize_role (some role) in
    record {
      role = r;
      allowed_kbs = get_allowed_kbs (some r) none;
      allowed_tools =
          sorted (filter (λ tool. can_use_tool (some r) tool none) (keys tool_action_permissions));
    }
