-- ===== src/Security/AuthStore/Seeding/Settled.antt =====
-- What the start of src/mini_rag/security/auth_store.py leaves in the tables: a second start finds
-- nothing to do.
use mini_enterprise_rag_agen.Common.{
  ℕ, String, ◌≡◌, refl, sym, ap, ◌∙◌, Bool, true, false, ◌||◌, not, Option, none, some, List, [],
  ◌∷◌, ◌++◌, ◌==◌, if◌then◌else◌, mem, any, all, all-mem, filter, to_set, mem-sorted, mem-to_set,
  mem-filter, arith, Bool-cases, Option-cases, inl, inr, eq_iff, eq_refl, keys, strip,
}
use mini_enterprise_rag_agen.Security.Permissions.{
  normalize_role, can_use_tool, default_role_policy, tool_action_permissions, tool_permissions,
}
use mini_enterprise_rag_agen.Security.AuthStore.{is_valid_tool_policy_spec}
use mini_enterprise_rag_agen.Security.AuthStore.Rows.{PolicyRow, find_policy}
use mini_enterprise_rag_agen.Security.AuthStore.Seeding.{
  ignore_policy, update_policy, default_row, has_stale_tools, refreshed, refresh_role, seed_role,
  with_skill,
}

-- The role has a row, and its specs are all known.
unfoldable pub is_settled : String → List PolicyRow → Bool
is_settled role rows = elim (find_policy role rows) [
  | none ↦ false
  | some row ↦ not (has_stale_tools row)
]

any_none :
    (p : String → Bool) (xs : List String)
    → ((x : String) → mem x xs ≡ true → p x ≡ false)
    → any p xs ≡ false
unfolding any mem
any_none p [] h = refl
any_none p (x ∷ xs) h =
    ground (arith, h x, eq_refl x, any_none p xs (λ y m. h y (ground (arith, m))))

any-mem :
    (p : String → Bool) (x : String) (xs : List String)
    → any p xs ≡ false
    → mem x xs ≡ true
    → p x ≡ false
unfolding any mem
any-mem p x [] h m = cc
any-mem p x (y ∷ ys) h m = ground (arith, eq_iff x y, any-mem p x ys)

known_tool :
    (tool : String)
    → mem tool (keys tool_action_permissions) ≡ true
    → is_valid_tool_policy_spec tool ≡ true
unfolding all is_valid_tool_policy_spec mem keys strip tool_permissions
known_tool tool h = all-mem is_valid_tool_policy_spec tool (keys tool_action_permissions) refl h

default-fresh : (role : String) (now : ℕ) → has_stale_tools (default_row role now) ≡ false
unfolding has_stale_tools default_role_policy
default-fresh role now = any_none _ _ (λ tool m. ground (
  arith,
  known_tool tool,
  mem-sorted tool (
      filter (λ t. can_use_tool (some (normalize_role (some role))) t none)
        (keys tool_action_permissions)),
  mem-filter tool (λ t. can_use_tool (some (normalize_role (some role))) t none)
      (keys tool_action_permissions),
))

refreshed-fresh :
    (role : String) (now : ℕ) (row : PolicyRow) → has_stale_tools (refreshed role now row) ≡ false
unfolding refreshed has_stale_tools
refreshed-fresh role now row = default-fresh role now

skill_known : is_valid_tool_policy_spec "skill" ≡ true
unfolding is_valid_tool_policy_spec mem keys strip tool_permissions
skill_known = refl

mem-with_skill :
    (tool : String) (now : ℕ) (row : PolicyRow)
    → mem tool (with_skill now row).allowed_tools ≡ (tool == "skill" || mem tool row.allowed_tools)
unfolding mem
mem-with_skill tool now row =
    mem-sorted tool (to_set ("skill" ∷ row.allowed_tools))
    ∙ mem-to_set tool ("skill" ∷ row.allowed_tools)

valid_with_skill :
    (tool : String) (row : PolicyRow)
    → has_stale_tools row ≡ false
    → (tool == "skill" || mem tool row.allowed_tools) ≡ true
    → not (is_valid_tool_policy_spec tool) ≡ false
unfolding has_stale_tools
valid_with_skill tool row h m = elim (Bool-cases (tool == "skill")) [
  | inl same ↦ rw ((eq_iff tool "skill").0 same, skill_known) refl
  | inr other ↦
      any-mem (λ t. not (is_valid_tool_policy_spec t)) tool row.allowed_tools h (ground arith)
]

pub with_skill-fresh :
    (now : ℕ) (row : PolicyRow)
    → has_stale_tools row ≡ false
    → has_stale_tools (with_skill now row) ≡ false
unfolding has_stale_tools
with_skill-fresh now row h =
    any_none _ _ (λ tool m. valid_with_skill tool row h (sym (mem-with_skill tool now row) ∙ m))

find-ignore_policy :
    (r : String) (p : PolicyRow) (rows : List PolicyRow)
    → find_policy p.role rows ≡ none
    → find_policy r (rows ++ p ∷ []) ≡ (if p.role == r then some p else find_policy r rows)
unfolding find_policy
find-ignore_policy r p [] h = refl
find-ignore_policy r p (q ∷ rows) h =
    ground
      (arith, eq_iff q.role r, eq_iff p.role r, eq_iff q.role p.role, find-ignore_policy r p rows)

pub find-update_policy :
    (r role : String) (set : PolicyRow → PolicyRow) (rows : List PolicyRow)
    → ((p : PolicyRow) → (set p).role ≡ p.role)
    → find_policy r (update_policy role set rows) ≡ (
        if role == r
        then elim (find_policy r rows) [ none ↦ none | some row ↦ some (set row) ]
        else find_policy r rows)
unfolding find_policy update_policy
find-update_policy r role set [] h = ground arith
find-update_policy r role set (q ∷ rows) h = ground (
  arith,
  h q,
  eq_iff q.role r,
  eq_iff q.role role,
  eq_iff role r,
  find-update_policy r role set rows h,
)

-- The row of a role after `seed_role`.
abbrev seeded_row : ℕ → String → Option PolicyRow → PolicyRow
seeded_row now role none = default_row role now
seeded_row now role (some row) = if has_stale_tools row then refreshed role now row else row

ignore_policy_missing :
    (p : PolicyRow) (rows : List PolicyRow)
    → find_policy p.role rows ≡ none
    → ignore_policy p rows ≡ rows ++ p ∷ []
unfolding ignore_policy
ignore_policy_missing p rows missing = rw (ignore_policy, missing) refl

ignore_policy_found :
    (p row : PolicyRow) (rows : List PolicyRow)
    → find_policy p.role rows ≡ some row
    → ignore_policy p rows ≡ rows
unfolding ignore_policy
ignore_policy_found p row rows found = rw (ignore_policy, found) refl

seed_role_missing :
    (role : String) (now : ℕ) (rows : List PolicyRow)
    → find_policy role rows ≡ none
    → seed_role now role rows ≡ rows ++ default_row role now ∷ []
unfolding seed_role refresh_role
seed_role_missing role now rows missing =
    ap (refresh_role now role) (ignore_policy_missing (default_row role now) rows missing)
    ∙ rw
        (
          refresh_role,
          find-ignore_policy role (default_row role now) rows missing,
          eq_refl role,
          default-fresh role now,
        )
        refl

pub seed_role_found :
    (role : String) (now : ℕ) (rows : List PolicyRow) (row : PolicyRow)
    → find_policy role rows ≡ some row
    → seed_role now role rows
      ≡ (if has_stale_tools row then update_policy role (refreshed role now) rows else rows)
unfolding seed_role refresh_role
seed_role_found role now rows row found =
    ap (refresh_role now role) (ignore_policy_found (default_row role now) row rows found)
    ∙ rw (refresh_role, found) refl

find-seed_role :
    (r role : String) (now : ℕ) (rows : List PolicyRow)
    → find_policy r (seed_role now role rows) ≡ (
        if role == r
        then some (seeded_row now role (find_policy role rows))
        else find_policy r rows)
unfolding refreshed
find-seed_role r role now rows = elim (Option-cases (find_policy role rows)) [
  | inl missing ↦
      rw (seed_role_missing role now rows missing, missing)
        (find-ignore_policy r (default_row role now) rows missing)
  | inr (row, found) ↦ elim (Bool-cases (role == r)) [
    | inl same ↦
        let found' : find_policy r rows ≡ some row =
          ap (λ x. find_policy x rows) (sym ((eq_iff role r).0 same)) ∙ found in
        elim (Bool-cases (has_stale_tools row)) [
          | inl stale ↦
              rw
                (
                  seed_role_found role now rows row found,
                  stale,
                  found,
                  stale,
                  same,
                  find-update_policy r role (refreshed role now) rows (λ p. refl),
                  same,
                  found',
                )
                refl
          | inr fresh ↦
              rw (seed_role_found role now rows row found, fresh, found, fresh, same) found'
        ]
    | inr other ↦ elim (Bool-cases (has_stale_tools row)) [
      | inl stale ↦
          rw
            (
              seed_role_found role now rows row found,
              stale,
              other,
              find-update_policy r role (refreshed role now) rows (λ p. refl),
              other,
            )
            refl
      | inr fresh ↦ rw (seed_role_found role now rows row found, fresh, other) refl
    ]
  ]
]

seeded_row-fresh :
    (now : ℕ) (role : String) (o : Option PolicyRow)
    → has_stale_tools (seeded_row now role o) ≡ false
seeded_row-fresh now role none = default-fresh role now
seeded_row-fresh now role (some row) = elim (Bool-cases (has_stale_tools row)) [
  | inl stale ↦ rw stale (refreshed-fresh role now row)
  | inr fresh ↦ rw fresh fresh
]

pub settled-seed_role :
    (r role : String) (now : ℕ) (rows : List PolicyRow)
    → is_settled r (seed_role now role rows) ≡ (role == r || is_settled r rows)
unfolding is_settled
settled-seed_role r role now rows = elim (Bool-cases (role == r)) [
  | inl same ↦
      rw
        (
          is_settled,
          find-seed_role r role now rows,
          same,
          seeded_row-fresh now role (find_policy role rows),
        )
        refl
  | inr other ↦ rw (is_settled, find-seed_role r role now rows, other) refl
]
