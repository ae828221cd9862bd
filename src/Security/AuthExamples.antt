-- ===== src/Security/AuthExamples.antt =====
-- Tests of the model of src/mini_rag/security/auth_store.py, and its theorems at concrete inputs.
use mini_enterprise_rag_agen.Common.{
  String, ◌≡◌, ◌≢◌, refl, true, false, ◌&&◌, ◌||◌, none, some, List, [], ◌∷◌, ◌==◌, eq_iff,
  if◌then◌else◌, mem, lookup, strip, lower, ◌+++◌, keys, any, values, split_dot, filter, sorted,
  to_set,
}
use mini_enterprise_rag_agen.Security.Permissions.{
  RolePolicy, normalize_role, get_allowed_tool_actions, role_actions, actions_of, get_allowed_kbs,
  normalize_kb_ids, kb_catalog, tool_permissions,
}
use mini_enterprise_rag_agen.Security.AuthStore.{
  AuthUser, done, hash_token, derive_password_hash, row_to_user, check_password,
  authenticate_password, login, logout, session_user, enabled_user, authenticate_token, create_user,
  get_user, update_user, set_role, set_enabled, set_password, normalize_username,
  is_valid_tool_policy_spec, normalize_tool_policy_specs, list_role_policies, update_role_policy,
}
use mini_enterprise_rag_agen.Security.AuthStore.Rows.{
  UserRow, AuthDb, first, find_user, update_where, revoke_where, put_policy,
}
use mini_enterprise_rag_agen.Security.AuthStore.Sessions.{
  authenticate_token-logout, authenticate_token-login,
}
use mini_enterprise_rag_agen.Security.AuthStore.Passwords.{
  authenticate_password-create_user, authenticate_password-disabled, authenticate_token-disabled,
}
use mini_enterprise_rag_agen.Security.AuthStore.Seeding.{seed_defaults}
use mini_enterprise_rag_agen.Security.AuthStore.Seeding.Restart.{seed_defaults-again}
use mini_enterprise_rag_agen.Security.AuthStore.Policies.{
  stored, get_allowed_tool_actions-update_role_policy, get_allowed_kbs-update_role_policy,
}

abbrev sha256 : String → String
sha256 s = "h" +++ s

abbrev pbkdf2 : String → String → String
pbkdf2 password salt = salt +++ "/" +++ password

-- What runs the store.
store : Unit {0}
unfolding hash_token derive_password_hash row_to_user check_password authenticate_password login
    logout session_user enabled_user authenticate_token create_user get_user update_user set_role
    set_enabled set_password normalize_username first find_user update_where revoke_where any mem
    lookup strip lower normalize_role
store = tt

abbrev ann : UserRow
ann = record {
  username = "ann";
  password_hash = "s1/pw";
  salt = "s1";
  role = "hr";
  enabled = true;
  created_at = 1;
  updated_at = 1;
}

abbrev one_user : AuthDb
one_user = record { users = ann ∷ []; sessions = []; role_policies = []; metadata = [] }

abbrev logged_in : AuthDb
logged_in = record one_user {
  sessions = record { token_hash = "ht0"; username = "ann"; created_at = 5; revoked = false } ∷ [];
}

abbrev ann_user : AuthUser
ann_user = record { username = "ann"; role = "hr"; enabled = true }

login_test :
    login sha256 pbkdf2 one_user " Ann" "pw" "t0" 5
    ≡ done (some (record { access_token = "t0"; user = ann_user })) logged_in
unfolding store
login_test = refl

wrong_password : login sha256 pbkdf2 one_user "ann" "qw" "t0" 5 ≡ done none one_user
unfolding store
wrong_password = refl

token_is_not_empty : ◌≢◌ {A = String} "t0" ""
token_is_not_empty e = cc ((eq_iff "t0" "").1 e)

authenticate_token-login_example :
    (row : UserRow) × (find_user (normalize_username (some " Ann")) one_user.users ≡ some row)
    × (row.enabled ≡ true)
    × (row.password_hash ≡ pbkdf2 "pw" row.salt)
    × (authenticate_token sha256 pbkdf2 logged_in "t0" ≡ some (row_to_user row))
    × (ann_user ≡ row_to_user row)
    × (logged_in.users ≡ one_user.users)
authenticate_token-login_example =
    authenticate_token-login sha256 pbkdf2 one_user logged_in " Ann" "pw" "t0" 5
      (record { access_token = "t0"; user = ann_user }) login_test token_is_not_empty

authenticate_token-logout_example :
    authenticate_token sha256 pbkdf2 (logout sha256 pbkdf2 logged_in "t0") "t0"
    ≡ (if sha256 "t0" == sha256 "t0" then none else authenticate_token sha256 pbkdf2 logged_in "t0")
authenticate_token-logout_example = authenticate_token-logout sha256 pbkdf2 logged_in "t0" "t0"

abbrev bob : UserRow
bob = record {
  username = "bob";
  password_hash = "s2/b";
  salt = "s2";
  role = "it";
  enabled = true;
  created_at = 7;
  updated_at = 7;
}

abbrev two_users : AuthDb
two_users = record one_user { users = ann ∷ bob ∷ [] }

create_test :
    create_user sha256 pbkdf2 one_user "Bob" "b" "it" true "s2" 7
    ≡ done (record { username = "bob"; role = "it"; enabled = true }) two_users
unfolding store
create_test = refl

authenticate_password-create_user_example :
    (find_user (normalize_username (some "Bob")) one_user.users ≡ none)
    × (authenticate_password sha256 pbkdf2 two_users "Bob" "b"
        ≡ (if true then some (record { username = "bob"; role = "it"; enabled = true }) else none))
authenticate_password-create_user_example =
    authenticate_password-create_user sha256 pbkdf2 one_user two_users "Bob" "b" "it" "s2" true 7
      (record { username = "bob"; role = "it"; enabled = true }) create_test

authenticate_password-disabled_example :
    authenticate_password sha256 pbkdf2
      (update_user sha256 pbkdf2 two_users "Ann" none (some false) "" "" 9).1
      "ann"
      "pw"
    ≡ (if normalize_username (some "Ann") == normalize_username (some "ann")
        then none
        else authenticate_password sha256 pbkdf2 two_users "ann" "pw")
authenticate_password-disabled_example =
    authenticate_password-disabled sha256 pbkdf2 two_users "Ann" "ann" none "" "" "pw" 9

-- Bob is disabled, and Ann's token still opens.
ann_stays :
    authenticate_token sha256 pbkdf2
      (update_user sha256 pbkdf2
        (record logged_in { users = ann ∷ bob ∷ [] })
        "bob"
        none
        (some false)
        ""
        ""
        9).1
      "t0"
    ≡ some ann_user
unfolding store
ann_stays = refl

authenticate_token-disabled_example : ann_user.username ≢ normalize_username (some "bob")
authenticate_token-disabled_example =
    authenticate_token-disabled sha256 pbkdf2 (record logged_in { users = ann ∷ bob ∷ [] }) "bob"
      none "" "" "t0" 9 ann_user ann_stays

abbrev hr_specs : List String
hr_specs = " skill" ∷ "rm" ∷ []

abbrev hr_policy : RolePolicy
hr_policy = record { role = "hr"; allowed_kbs = "hr" ∷ []; allowed_tools = "skill" ∷ [] }

abbrev with_policy : AuthDb
with_policy = record one_user {
  role_policies =
      record { role = "hr"; allowed_kbs = "hr" ∷ []; allowed_tools = "skill" ∷ []; updated_at = 3 }
      ∷ [];
}

policy_test :
    update_role_policy one_user "HR" ("hr" ∷ "x" ∷ []) hr_specs 3 ≡ done hr_policy with_policy
unfolding store update_role_policy put_policy normalize_kb_ids normalize_tool_policy_specs
    is_valid_tool_policy_spec tool_permissions kb_catalog keys split_dot filter sorted to_set
    actions_of values
policy_test = refl

get_allowed_tool_actions-update_role_policy_example :
    mem "run" (get_allowed_tool_actions (some "HR") "skill" (some (list_role_policies with_policy)))
    ≡ (mem "run" (role_actions (normalize_role (some "HR")) (actions_of "skill"))
        && (stored hr_specs "skill" || stored hr_specs ("skill" +++ "." +++ "run")))
get_allowed_tool_actions-update_role_policy_example =
    get_allowed_tool_actions-update_role_policy one_user with_policy "HR" "skill" "run"
      ("hr" ∷ "x" ∷ []) hr_specs 3 hr_policy policy_test

get_allowed_kbs-update_role_policy_example :
    get_allowed_kbs (some "HR") (some (list_role_policies with_policy))
    ≡ normalize_kb_ids (some ("hr" ∷ "x" ∷ []))
get_allowed_kbs-update_role_policy_example =
    get_allowed_kbs-update_role_policy one_user with_policy "HR" ("hr" ∷ "x" ∷ []) hr_specs 3
      hr_policy policy_test

seed_defaults-again_example :
    seed_defaults sha256 pbkdf2
      (λ name. "s2")
      20
      (seed_defaults sha256 pbkdf2 (λ name. "s1") 10 one_user)
    ≡ seed_defaults sha256 pbkdf2 (λ name. "s1") 10 one_user
seed_defaults-again_example =
    seed_defaults-again sha256 pbkdf2 (λ name. "s1") (λ name. "s2") 10 20 one_user
