-- ===== src/Security/AuthStore/Passwords.antt =====
-- Accounts of src/mini_rag/security/auth_store.py: creating, changing and disabling a user.
use mini_enterprise_rag_agen.Common.{
  ℕ, String, ◌≡◌, ◌≢◌, refl, Bool, true, false, ◌&&◌, not, Option, none, some, List, [], ◌∷◌, ◌++◌,
  arith, ◌==◌, eq_iff, eq_refl, if◌then◌else◌, Option-cases, inl, inr, is_some, ap,
}
use mathlib.Core.Option
use mini_enterprise_rag_agen.Security.Permissions.{normalize_role}
use mini_enterprise_rag_agen.Security.AuthStore.{
  AuthUser, done, hash_token, derive_password_hash, row_to_user, check_password,
  authenticate_password, session_user, enabled_user, authenticate_token, create_user, update_user,
  normalize_username, set_role, set_enabled, set_password,
}
use mini_enterprise_rag_agen.Security.AuthStore.Rows.{
  UserRow, SessionRow, AuthDb, first, find_user, update_where,
}
use mini_enterprise_rag_agen.Security.AuthStore.Sessions.{username-find_user}
use mini_enterprise_rag_agen.Security.Permissions.Laws.{normalize_role_idem}

-- An update finds the rows of its name changed and all others as they were.
find_user-update_where :
    (name other : String) (set : UserRow → UserRow) (us : List UserRow)
    → ((u : UserRow) → (set u).username ≡ u.username)
    → find_user other (update_where name set us)
      ≡ (if name == other then Option.map set (find_user other us) else find_user other us)
unfolding find_user update_where
find_user-update_where name other set [] keeps = ground arith
find_user-update_where name other set (u ∷ us) keeps = ground (
  arith,
  find_user-update_where name other set us keeps,
  keeps u,
  eq_iff u.username name,
  eq_iff u.username other,
  eq_iff name other,
)

find_user-append :
    (name : String) (us : List UserRow) (u : UserRow)
    → find_user name us ≡ none
    → find_user name (us ++ u ∷ []) ≡ (if u.username == name then some u else none)
unfolding find_user
find_user-append name [] u h = refl
find_user-append name (v ∷ vs) u h = ground (arith, find_user-append name vs u)

module _ (sha256 : String → String) (pbkdf2 : String → String → String) where
  -- An account that `create_user` has made had a free name, and the password that was given opens
  -- it exactly if it is enabled.
  pub authenticate_password-create_user :
      (db db' : AuthDb) (username password role salt : String) (enabled : Bool) (now : ℕ)
      (user : AuthUser)
      → create_user sha256 pbkdf2 db username password role enabled salt now ≡ done user db'
      → (find_user (normalize_username (some username)) db.users ≡ none)
        × (authenticate_password sha256 pbkdf2 db' username password
            ≡ (if enabled then some user else none))
  unfolding create_user authenticate_password check_password derive_password_hash row_to_user
  authenticate_password-create_user db db' username password role salt enabled now user h =
      let name = normalize_username (some username) in
      let row : UserRow = record {
        username = name;
        password_hash = pbkdf2 password salt;
        salt = salt;
        role = normalize_role (some role);
        enabled = enabled;
        created_at = now;
        updated_at = now;
      } in
      (
        ground arith,
        ground (
          arith,
          find_user-append name db.users row,
          eq_refl name,
          eq_refl (pbkdf2 password salt),
          normalize_role_idem (some role),
        ),
      )

  abbrev change : Option String → Option Bool → String → String → ℕ → UserRow → UserRow
  change role enabled password salt now u =
      record (set_password sha256 pbkdf2 password salt
        (set_enabled sha256 pbkdf2 enabled (set_role sha256 pbkdf2 role u))) { updated_at = now }

  username-change :
      (role : Option String) (enabled : Option Bool) (password salt : String) (now : ℕ)
      (u : UserRow)
      → (change role enabled password salt now u).username ≡ u.username
  unfolding set_role set_enabled set_password
  username-change role enabled password salt now u = ground arith

  -- What an update does to the row that a name finds, whatever is set.
  find_user-update_user :
      (db : AuthDb) (username other : String) (role : Option String) (enabled : Option Bool)
      (password salt : String) (now : ℕ)
      → (not (is_some role) && not (is_some enabled) && password == "") ≡ false
      → find_user other
          (update_user sha256 pbkdf2 db username role enabled password salt now).1.users
        ≡ (if normalize_username (some username) == other
            then Option.map (change role enabled password salt now) (find_user other db.users)
            else find_user other db.users)
  unfolding update_user
  find_user-update_user db username other role enabled password salt now some_field = ground (
    arith,
    find_user-update_where (normalize_username (some username)) other
        (change role enabled password salt now) db.users
        (username-change role enabled password salt now),
  )

  -- After an update that sets `enabled` to false, no password opens the account, and every other
  -- account opens with the passwords that opened it before.
  pub authenticate_password-disabled :
      (db : AuthDb) (username other : String) (role : Option String)
      (password salt attempt : String) (now : ℕ)
      → authenticate_password sha256 pbkdf2
          (update_user sha256 pbkdf2 db username role (some false) password salt now).1
          other
          attempt
        ≡ (if normalize_username (some username) == normalize_username (some other)
            then none
            else authenticate_password sha256 pbkdf2 db other attempt)
  unfolding authenticate_password check_password set_password set_enabled
  authenticate_password-disabled db username other role password salt attempt now = ground (
    arith,
    find_user-update_user db username (normalize_username (some other)) role (some false) password
        salt now (ground arith),
  )

  -- The row that a token leads to is the one that its user name finds.
  first-found :
      (hash : String) (users : List UserRow) (ss : List SessionRow) (row : UserRow)
      → first (session_user sha256 pbkdf2 hash users) ss ≡ some row
      → find_user row.username users ≡ some row
  unfolding first session_user
  first-found hash users [] row h = cc
  first-found hash users (s ∷ ss) row h = ground (
    arith,
    first-found hash users ss row,
    username-find_user s.username users row,
    ap (λ (n : String). find_user n users),
  )

  enabled-after :
      (db : AuthDb) (username : String) (role : Option String) (password salt : String) (now : ℕ)
      (row : UserRow)
      → find_user row.username
          (update_user sha256 pbkdf2 db username role (some false) password salt now).1.users
        ≡ some row
      → row.enabled ≡ true
      → row.username ≢ normalize_username (some username)
  unfolding set_password set_enabled
  enabled-after db username role password salt now row found enabled = ground (
    arith,
    find_user-update_user db username row.username role (some false) password salt now
        (ground arith),
    eq_iff (normalize_username (some username)) row.username,
  )

  -- After an update that sets `enabled` to false, no token, however old, authenticates the account.
  pub authenticate_token-disabled :
      (db : AuthDb) (username : String) (role : Option String) (password salt token : String)
      (now : ℕ) (user : AuthUser)
      → authenticate_token sha256 pbkdf2
          (update_user sha256 pbkdf2 db username role (some false) password salt now).1
          token
        ≡ some user
      → user.username ≢ normalize_username (some username)
  unfolding authenticate_token enabled_user row_to_user
  authenticate_token-disabled db username role password salt token now user h =
      let db' = (update_user sha256 pbkdf2 db username role (some false) password salt now).1 in
      let hash = hash_token sha256 pbkdf2 token in
      elim (Option-cases (first (session_user sha256 pbkdf2 hash db'.users) db'.sessions)) [
        | inl absent ↦ ground arith
        | inr (row, there) ↦ ground (
          arith,
          enabled-after db username role password salt now row
              (first-found hash db'.users db'.sessions row there),
        )
      ]
