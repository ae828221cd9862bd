-- ===== src/Security/AuthStore.antt =====
-- src/mini_rag/security/auth_store.py: the SQLite tables as lists of rows, and every method of
-- `SQLiteAuthStore`. Hashes, random values and the clock are arguments; a JSON column holds the
-- list that was dumped into it.
pub mod Rows
pub mod Sessions
pub mod Passwords
pub mod Policies
pub mod Seeding
use mathlib.Core.Option
use mini_enterprise_rag_agen.Common.{
  ◌+++◌, text_leb, ℕ, String, Bool, true, false, ◌&&◌, not, Option, none, some, List, [], ◌∷◌, ◌++◌,
  map, split_dot, or_else, is_empty, ◌==◌, if◌then◌else◌, strip, lower, text_or, mem, to_set,
  sorted, filter, is_empty, is_some, all, any, Dict, lookup, insert, keys,
}
use mini_enterprise_rag_agen.Security.Permissions.{
  RolePolicy, normalize_role, normalize_kb_ids, tool_action_permissions, actions_of,
  tool_permissions, default_role_policy, valid_roles,
}
use Rows.{
  UserRow, SessionRow, PolicyRow, AuthDb, first, find_user, find_policy, update_where, revoke_where,
  put_policy,
}

pub record AuthUser : Type 0 where
  pub username : String
  pub role : String
  pub enabled : Bool

pub record LoginResult : Type 0 where
  pub access_token : String
  pub user : AuthUser

-- What a method returns: a value with the new tables, or the exception that leaves them unchanged.
pub data Outcome {ℓ} (A : Type ℓ) : Type ℓ where
  done : A → AuthDb → Outcome A
  integrity_error : Outcome A
  value_error : String → Outcome A

unfoldable pub normalize_username : Option String → String
normalize_username username = lower (strip (text_or username ""))

unfoldable pub row_to_user : UserRow → AuthUser
row_to_user row = record {
  username = row.username;
  role = normalize_role (some row.role);
  enabled = row.enabled;
}

unfoldable pub row_to_policy : PolicyRow → RolePolicy
row_to_policy row = record {
  role = normalize_role (some row.role);
  allowed_kbs = normalize_kb_ids (some row.allowed_kbs);
  allowed_tools = row.allowed_tools;
}

action_spec_ok : Option (String × String) → Bool
action_spec_ok none = false
action_spec_ok (some (tool_name, action)) =
    mem tool_name (keys tool_action_permissions) && mem action (keys (actions_of tool_name))

unfoldable pub is_valid_tool_policy_spec : String → Bool
unfolding action_spec_ok
is_valid_tool_policy_spec raw =
    let spec = strip raw in
    if mem spec (keys tool_permissions) then true else action_spec_ok (split_dot spec)

unfoldable pub normalize_tool_policy_specs : List String → List String
normalize_tool_policy_specs allowed_tools =
    sorted (to_set (filter is_valid_tool_policy_spec (map strip allowed_tools)))

-- `sha256` is the hex digest of a text, `pbkdf2` that of a password under a salt.
module _ (sha256 : String → String) (pbkdf2 : String → String → String) where
  unfoldable pub hash_token : String → String
  hash_token token = sha256 token

  unfoldable pub derive_password_hash : String → String → String
  derive_password_hash password salt = pbkdf2 password salt

  -- The checks of `authenticate_password` on the row that was fetched.
  unfoldable pub check_password : String → Option UserRow → Option AuthUser
  check_password password none = none
  check_password password (some row) =
      if not row.enabled
      then none
      else if row.password_hash == derive_password_hash password row.salt
      then some (row_to_user row)
      else none

  unfoldable pub authenticate_password : AuthDb → String → String → Option AuthUser
  authenticate_password db username password =
      check_password password (find_user (normalize_username (some username)) db.users)

  -- INSERT INTO sessions: the token hash is the primary key.
  unfoldable pub login : AuthDb → String → String → String → ℕ → Outcome (Option LoginResult)
  login db username password token now = elim (authenticate_password db username password) [
    | none ↦ done none db
    | some user ↦
        if any (λ s. s.token_hash == hash_token token) db.sessions
        then integrity_error
        else done (some (record { access_token = token; user = user })) (record db {
          sessions =
              db.sessions
              ++ record {
                token_hash = hash_token token;
                username = user.username;
                created_at = now;
                revoked = false;
              }
                ∷ [];
        })
  ]

  unfoldable pub logout : AuthDb → String → AuthDb
  logout db token = record db { sessions = revoke_where (hash_token token) db.sessions }

  -- The row of the join that a session contributes.
  unfoldable pub session_user : String → List UserRow → SessionRow → Option UserRow
  session_user hash users s =
      if s.token_hash == hash && not s.revoked then find_user s.username users else none

  unfoldable pub enabled_user : Option UserRow → Option AuthUser
  enabled_user none = none
  enabled_user (some row) = if not row.enabled then none else some (row_to_user row)

  unfoldable pub authenticate_token : AuthDb → String → Option AuthUser
  authenticate_token db token =
      if token == ""
      then none
      else enabled_user (first (session_user (hash_token token) db.users) db.sessions)

  unfoldable pub create_user :
      AuthDb → String → String → String → Bool → String → ℕ → Outcome AuthUser
  create_user db username password role enabled salt now =
      let name = normalize_username (some username) in
      let r = normalize_role (some role) in
      if name == ""
      then value_error "username is required"
      else if password == ""
      then value_error "password is required"
      else if is_some (find_user name db.users)
      then integrity_error
      else done (record { username = name; role = r; enabled = enabled })
          (record db {
            users =
                db.users
                ++ record {
                  username = name;
                  password_hash = derive_password_hash password salt;
                  salt = salt;
                  role = r;
                  enabled = enabled;
                  created_at = now;
                  updated_at = now;
                }
                  ∷ [];
          })

  unfoldable pub get_user : AuthDb → String → Option AuthUser
  get_user db username =
      Option.map row_to_user (find_user (normalize_username (some username)) db.users)

  -- The SET clauses that `update_user` collects, as a change of one row.
  unfoldable pub set_role : Option String → UserRow → UserRow
  set_role none u = u
  set_role (some role) u = record u { role = normalize_role (some role) }

  unfoldable pub set_enabled : Option Bool → UserRow → UserRow
  set_enabled none u = u
  set_enabled (some enabled) u = record u { enabled = enabled }

  unfoldable pub set_password : String → String → UserRow → UserRow
  set_password password salt u =
      if password == ""
      then u
      else record u { password_hash = derive_password_hash password salt; salt = salt }

  -- `password` is "" where the caller passes None.
  unfoldable pub update_user :
      AuthDb → String → Option String → Option Bool → String → String → ℕ → Option AuthUser × AuthDb
  update_user db username role enabled password salt now =
      let name = normalize_username (some username) in
      if not (is_some role) && not (is_some enabled) && password == ""
      then (get_user db name, db)
      else let set = λ (u : UserRow).
        record (set_password password salt (set_enabled enabled (set_role role u))) {
          updated_at = now;
        } in
        let db' = record db { users = update_where name set db.users } in
        if is_some (find_user name db.users) then (get_user db' name, db') else (none, db')

-- SELECT … FROM users ORDER BY username; the two hash columns are not selected.
pub record UserListing : Type 0 where
  pub username : String
  pub role : String
  pub enabled : Bool
  pub created_at : ℕ
  pub updated_at : ℕ

insert_listing : UserListing → List UserListing → List UserListing
insert_listing u [] = u ∷ []
insert_listing u (v ∷ vs) =
    let rest = insert_listing u vs in
    if text_leb u.username v.username then u ∷ (v ∷ vs) else v ∷ rest

unfoldable pub list_users_from : List UserRow → List UserListing
unfolding insert_listing
list_users_from [] = []
list_users_from (u ∷ us) =
    insert_listing
      (record {
        username = u.username;
        role = u.role;
        enabled = u.enabled;
        created_at = u.created_at;
        updated_at = u.updated_at;
      })
      (list_users_from us)

unfoldable pub list_users : AuthDb → List UserListing
list_users db = list_users_from db.users

-- A dict by role; the order of the rows is not observed.
unfoldable pub list_role_policies : AuthDb → Dict RolePolicy
list_role_policies db = map (λ (row : PolicyRow). (row.role, row_to_policy row)) db.role_policies

unfoldable pub update_role_policy :
    AuthDb → String → List String → List String → ℕ → Outcome RolePolicy
update_role_policy db role allowed_kbs allowed_tools now =
    let r = normalize_role (some role) in
    if not (mem r valid_roles)
    then value_error ("unknown role: " +++ r)
    else let kbs = normalize_kb_ids (some allowed_kbs) in
      let tools = normalize_tool_policy_specs allowed_tools in
      done (record { role = r; allowed_kbs = kbs; allowed_tools = tools })
        (record db {
          role_policies =
              put_policy
                (record { role = r; allowed_kbs = kbs; allowed_tools = tools; updated_at = now })
                db.role_policies;
        })
