-- ===== src/Security/Permissions/Tools.antt =====
-- Tool and action permissions of src/mini_rag/security/permissions.py: what a role policy grants,
-- and what only the administrator may do.
use Prim.Native.Char.{Char, code}
use Prim.Native.String.compare
use Prim.Native.String.{[], ◌∷◌}
use text.Mathlib.TextLemmas.{nil-append, cons-append, cons-ne-nil}
use mini_enterprise_rag_agen.Common.{
  ◌+++◌, String, ◌≡◌, ◌≢◌, ◌⊎◌, refl, sym, Bool, true, false, ◌&&◌, ◌||◌, Option, none, some, List,
  map, arith, ◌==◌, eqb, eq_iff, Bool-cases, Option-cases, inl, inr, strip, strip_prefix?, mem,
  to_set, filter_map, all, all-mem, keys, Dict, mem-filter, mem-to_set,
}
use mini_enterprise_rag_agen.Security.Permissions.{
  RolePolicy, RolePolicyMap, normalize_role, policy_of, policy_actions, actions_of, role_actions,
  allowed_actions_from_role_policy, get_allowed_tool_actions, can_use_tool_action, normalize_action,
  valid_roles,
}
use mini_enterprise_rag_agen.Security.Permissions.Laws.{normalize_role_idem, of_valid_roles}

-- `startswith` and `removeprefix` together: what is left of `y` is `a` exactly if `y` is `p + a`.
abbrev leaves : String → Option String → Bool
leaves a none = false
leaves a (some r) = a == r

cons-eq-nil : (c : Char) (s : String) → ((c ∷ s) == "") ≡ false
cons-eq-nil c s = elim (Bool-cases ((c ∷ s) == "")) [
  | inl e ↦ absurd (cons-ne-nil c s ((eq_iff (c ∷ s) "").0 e))
  | inr e ↦ e
]

cons-eq-cons_test :
    (c d : Char) (s t : String) → ((c ∷ s) == (d ∷ t)) ≡ (eqb (code c) (code d) && s == t)
cons-eq-cons_test c d s t = rw compare.cons-cons (ground arith)

leaves-strip_prefix : (a p y : String) → leaves a (strip_prefix? p y) ≡ ((p +++ a) == y)
unfolding strip_prefix?
leaves-strip_prefix a [] y = rw nil-append
leaves-strip_prefix a (c ∷ p) [] = rw cons-append (sym (cons-eq-nil c (p +++ a)))
leaves-strip_prefix a (c ∷ p) (d ∷ s) =
    rw (cons-append, cons-eq-cons_test c d (p +++ a) s)
      (elim (Bool-cases (eqb (code c) (code d))) [
        | inl e ↦ rw (e, strip_prefix?) (leaves-strip_prefix a p s)
        | inr e ↦ rw (e, strip_prefix?)
      ])

mem-filter_map :
    (a p : String) (xs : List String) → mem a (filter_map (strip_prefix? p) xs) ≡ mem (p +++ a) xs
unfolding mem filter_map
mem-filter_map a p List.[] = refl
mem-filter_map a p (List.◌∷◌ y ys) =
    ground (arith, mem-filter_map a p ys, leaves-strip_prefix a p y)

mem-role_actions-keys :
    (role a : String) (d : Dict (List String))
    → mem a (role_actions role d) ≡ true
    → mem a (keys d) ≡ true
unfolding mem role_actions keys
mem-role_actions-keys role a List.[] h = h
mem-role_actions-keys role a (List.◌∷◌ (b, roles) d) h =
    ground (arith, mem-role_actions-keys role a d)

-- The default role matrix is the meet of every policy: with no policy at all a role has its
-- baseline, so a policy never grants an action outside the role's baseline.
pub get_allowed_tool_actions-narrows :
    (role : Option String) (tool a : String) (policies : RolePolicyMap)
    → mem a (get_allowed_tool_actions role tool policies) ≡ true
    → mem a (role_actions (normalize_role role) (actions_of tool)) ≡ true
unfolding get_allowed_tool_actions
get_allowed_tool_actions-narrows role tool a policies h =
    let base = role_actions (normalize_role role) (actions_of tool) in
    elim (Option-cases (allowed_actions_from_role_policy (normalize_role role) tool policies)) [
      | inl absent ↦ rw (absent, get_allowed_tool_actions) at h
      | inr (pa, present) ↦ ground (arith, present, mem-filter a (λ b. mem b pa) base)
    ]

mem-policy_actions :
    (specs : List String) (tool a : String)
    → mem a (keys (actions_of tool)) ≡ true
    → mem a (policy_actions specs tool)
      ≡ (mem tool (map strip specs) || mem (tool +++ "." +++ a) (map strip specs))
unfolding policy_actions
mem-policy_actions specs tool a h =
    let cleaned = map strip specs in
    let named = filter_map (strip_prefix? (tool +++ ".")) (to_set cleaned) in
    ground (
      arith,
      mem-to_set tool cleaned,
      mem-filter a (λ b. mem b (keys (actions_of tool))) (to_set named),
      mem-to_set a named,
      mem-filter_map a (tool +++ ".") (to_set cleaned),
      mem-to_set (tool +++ "." +++ a) cleaned,
    )

-- Under a stored policy for the caller's role an action of a tool is allowed exactly if the role's
-- baseline has it and the policy lists, after trimming, the tool or "tool.action".
pub get_allowed_tool_actions-policy :
    (role : Option String) (tool a : String) (policies : RolePolicyMap) (p : RolePolicy)
    → policy_of policies (normalize_role role) ≡ some p
    → mem a (get_allowed_tool_actions role tool policies) ≡ (
        mem a (role_actions (normalize_role role) (actions_of tool))
        && (mem tool (map strip p.allowed_tools)
            || mem (tool +++ "." +++ a) (map strip p.allowed_tools)))
unfolding get_allowed_tool_actions allowed_actions_from_role_policy
get_allowed_tool_actions-policy role tool a policies p h =
    rw (normalize_role_idem, h, get_allowed_tool_actions, allowed_actions_from_role_policy)
      (ground (
        arith,
        mem-filter a (λ b. mem b (policy_actions p.allowed_tools tool))
            (role_actions (normalize_role role) (actions_of tool)),
        mem-role_actions-keys (normalize_role role) a (actions_of tool),
        mem-policy_actions p.allowed_tools tool a,
      ))

-- For every role, the actions of the calendar tool are "query", or the role is "admin".
calendar_actions :
    all
      (λ r.
        r == "admin"
        || all (λ a. a == "query") (role_actions r (actions_of "manage_company_calendar")))
      valid_roles
    ≡ true
unfolding all role_actions actions_of mem
calendar_actions = refl

calendar_writes :
    (role : Option String) (a : String)
    → mem a (role_actions (normalize_role role) (actions_of "manage_company_calendar")) ≡ true
    → (normalize_role role ≡ "admin") ⊎ (a ≡ "query")
calendar_writes role a h =
    let own = role_actions (normalize_role role) (actions_of "manage_company_calendar") in
    ground (
      arith,
      of_valid_roles
          (λ r.
            r == "admin"
            || all (λ b. b == "query") (role_actions r (actions_of "manage_company_calendar")))
          calendar_actions role,
      all-mem (λ b. b == "query") a own,
      eq_iff (normalize_role role) "admin",
      eq_iff a "query",
    )

-- Whatever the stored policies say, an action on the company calendar that is not "query" once
-- normalised is open only to the administrator.
pub can_use_tool_action-calendar :
    (role action : Option String) (policies : RolePolicyMap)
    → can_use_tool_action role "manage_company_calendar" action policies ≡ true
    → normalize_action action ≢ "query"
    → normalize_role role ≡ "admin"
unfolding can_use_tool_action
can_use_tool_action-calendar role action policies h not_query = ground (
  arith,
  get_allowed_tool_actions-narrows role "manage_company_calendar" "*" policies,
  get_allowed_tool_actions-narrows role "manage_company_calendar" (normalize_action action)
      policies,
  calendar_writes role "*",
  calendar_writes role (normalize_action action),
  eq_iff "*" "query",
)
