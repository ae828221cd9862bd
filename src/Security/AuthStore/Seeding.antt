-- ===== src/Security/AuthStore/Seeding.antt =====
-- `_seed_defaults` and `_migrate_skill_runtime_policy` of src/mini_rag/security/auth_store.py, which
-- every start runs. `salt` is the random salt of a demo account in this start.
pub mod Settled
pub mod Restart
use mini_enterprise_rag_agen.Common.{
  ℕ, String, Bool, true, false, not, Option, none, some, List, [], ◌∷◌, ◌++◌, ◌==◌, if◌then◌else◌,
  mem, any, all, is_empty, is_some, sorted, to_set, Dict, lookup, insert,
}
use mini_enterprise_rag_agen.Security.Permissions.{
  normalize_role, normalize_kb_ids, default_role_policy, valid_roles,
}
use mini_enterprise_rag_agen.Security.AuthStore.{is_valid_tool_policy_spec, derive_password_hash}
use mini_enterprise_rag_agen.Security.AuthStore.Rows.{
  UserRow, PolicyRow, AuthDb, find_user, find_policy,
}

abbrev pub demo_users : List (String × (String × String))
demo_users =
    ("admin", ("admin123", "admin"))
    ∷ ("employee", ("employee123", "employee"))
    ∷ ("finance", ("finance123", "finance"))
    ∷ ("hr", ("hr123", "hr"))
    ∷ ("it", ("it123", "it"))
    ∷ ("guest", ("guest123", "guest"))
    ∷ []

-- INSERT OR IGNORE INTO role_policies
unfoldable pub ignore_policy : PolicyRow → List PolicyRow → List PolicyRow
ignore_policy p rows = if is_some (find_policy p.role rows) then rows else rows ++ p ∷ []

-- UPDATE role_policies SET … WHERE role = ?
unfoldable pub update_policy : String → (PolicyRow → PolicyRow) → List PolicyRow → List PolicyRow
update_policy role set [] = []
update_policy role set (p ∷ ps) =
    let rest = update_policy role set ps in if p.role == role then set p ∷ rest else p ∷ rest

-- INSERT OR IGNORE INTO users
unfoldable pub ignore_user : UserRow → List UserRow → List UserRow
ignore_user u rows = if is_some (find_user u.username rows) then rows else rows ++ u ∷ []

abbrev pub default_row : String → ℕ → PolicyRow
default_row role now = record {
  role = role;
  allowed_kbs = (default_role_policy role).allowed_kbs;
  allowed_tools = (default_role_policy role).allowed_tools;
  updated_at = now;
}

unfoldable pub has_stale_tools : PolicyRow → Bool
has_stale_tools row = any (λ tool. not (is_valid_tool_policy_spec tool)) row.allowed_tools

-- The update of a row with stale tools; a row keeps its knowledge bases if it has any.
unfoldable pub refreshed : String → ℕ → PolicyRow → PolicyRow
refreshed role now row =
    let stored_kbs = normalize_kb_ids (some row.allowed_kbs) in
    let policy = default_role_policy role in
    record row {
      allowed_kbs = if is_empty stored_kbs then policy.allowed_kbs else stored_kbs;
      allowed_tools = policy.allowed_tools;
      updated_at = now;
    }

-- The check of the stored row.
unfoldable pub refresh_role : ℕ → String → List PolicyRow → List PolicyRow
refresh_role now role rows = elim (find_policy role rows) [
  | none ↦ rows
  | some row ↦ if has_stale_tools row then update_policy role (refreshed role now) rows else rows
]

unfoldable pub seed_role : ℕ → String → List PolicyRow → List PolicyRow
seed_role now role rows = refresh_role now role (ignore_policy (default_row role now) rows)

unfoldable pub seed_roles : ℕ → List String → List PolicyRow → List PolicyRow
seed_roles now [] rows = rows
seed_roles now (role ∷ roles) rows = seed_roles now roles (seed_role now role rows)

abbrev pub with_skill : ℕ → PolicyRow → PolicyRow
with_skill now row = record row {
  allowed_tools = sorted (to_set ("skill" ∷ row.allowed_tools));
  updated_at = now;
}

-- A role whose default policy has no "skill" is passed over.
unfoldable pub migrate_role : ℕ → String → List PolicyRow → List PolicyRow
migrate_role now role rows =
    if not (mem "skill" (default_role_policy role).allowed_tools)
    then rows
    else elim (find_policy role rows) [
      | none ↦ rows
      | some row ↦
          if mem "skill" row.allowed_tools then rows else update_policy role (with_skill now) rows
    ]

unfoldable pub migrate_roles : ℕ → List String → List PolicyRow → List PolicyRow
migrate_roles now [] rows = rows
migrate_roles now (role ∷ roles) rows = migrate_roles now roles (migrate_role now role rows)

abbrev pub is_marked : Option String → Bool
is_marked none = false
is_marked (some value) = value == "1"

unfoldable pub migrate_skill_runtime_policy : ℕ → AuthDb → AuthDb
migrate_skill_runtime_policy now db =
    if is_marked (lookup "skill_runtime_policy_v1" db.metadata) then db else record db {
      role_policies = migrate_roles now (sorted valid_roles) db.role_policies;
      metadata = insert "skill_runtime_policy_v1" "1" db.metadata;
    }

module _ (sha256 : String → String) (pbkdf2 : String → String → String) (salt : String → String)
    (now : ℕ) where
  abbrev pub demo_row : String → String → String → UserRow
  demo_row username password role = record {
    username = username;
    password_hash = derive_password_hash sha256 pbkdf2 password (salt username);
    salt = salt username;
    role = normalize_role (some role);
    enabled = true;
    created_at = now;
    updated_at = now;
  }

  unfoldable pub seed_users : List (String × (String × String)) → List UserRow → List UserRow
  seed_users [] rows = rows
  seed_users ((username, (password, role)) ∷ users) rows =
      seed_users users (ignore_user (demo_row username password role) rows)

  unfoldable pub seed_defaults : AuthDb → AuthDb
  seed_defaults db =
      let seeded = record db {
        role_policies = seed_roles now (sorted valid_roles) db.role_policies;
      } in
      let migrated = migrate_skill_runtime_policy now seeded in
      record migrated { users = seed_users demo_users migrated.users }
