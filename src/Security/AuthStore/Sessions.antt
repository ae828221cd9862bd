-- ===== src/Security/AuthStore/Sessions.antt =====
-- Bearer tokens of src/mini_rag/security/auth_store.py: login, logout and `authenticate_token`.
use mathlib.Core.Bool.{false≢true}
use mini_enterprise_rag_agen.Common.{
  sym, ap, ◌∙◌, eq_refl, ℕ, String, ◌≡◌, ◌≢◌, refl, true, false, Option, none, some, List, [], ◌∷◌,
  ◌++◌, arith, ◌==◌, eq_iff, if◌then◌else◌, Bool-cases, Option-cases, inl, inr, any,
}
use mini_enterprise_rag_agen.Security.AuthStore.{
  derive_password_hash, AuthUser, LoginResult, done, hash_token, row_to_user, check_password,
  authenticate_password, login, logout, session_user, enabled_user, authenticate_token,
  normalize_username,
}
use mini_enterprise_rag_agen.Security.AuthStore.Rows.{
  UserRow, SessionRow, AuthDb, first, find_user, revoke_where,
}

pub username-find_user :
    (name : String) (us : List UserRow) (u : UserRow)
    → find_user name us ≡ some u
    → u.username ≡ name
unfolding find_user
username-find_user name [] u h = cc
username-find_user name (v ∷ vs) u h =
    ground (arith, eq_iff v.username name, username-find_user name vs u)

module _ (sha256 : String → String) (pbkdf2 : String → String → String) where
  abbrev pub row_of : String → List UserRow → SessionRow → Option UserRow
  row_of = session_user sha256 pbkdf2

  first-revoked :
      (hash : String) (users : List UserRow) (ss : List SessionRow)
      → first (row_of hash users) (revoke_where hash ss) ≡ none
  unfolding first revoke_where session_user
  first-revoked hash users [] = refl
  first-revoked hash users (s ∷ ss) = ground (arith, first-revoked hash users ss)

  first-revoked_other :
      (hash other : String) (users : List UserRow) (ss : List SessionRow)
      → hash ≢ other
      → first (row_of other users) (revoke_where hash ss) ≡ first (row_of other users) ss
  unfolding first revoke_where session_user
  first-revoked_other hash other users [] ne = refl
  first-revoked_other hash other users (s ∷ ss) ne = ground (
    arith,
    first-revoked_other hash other users ss ne,
    eq_iff s.token_hash hash,
    eq_iff s.token_hash other,
  )

  -- After a logout, a token with the hash of the one that was logged out authenticates nobody, and
  -- every other token authenticates whom it did before.
  pub authenticate_token-logout :
      (db : AuthDb) (token other : String)
      → authenticate_token sha256 pbkdf2 (logout sha256 pbkdf2 db token) other
        ≡ (if sha256 token == sha256 other then none else authenticate_token sha256 pbkdf2 db other)
  unfolding authenticate_token logout hash_token enabled_user
  authenticate_token-logout db token other = elim (Bool-cases (sha256 token == sha256 other)) [
    | inl same ↦
        let e = (eq_iff (sha256 token) (sha256 other)).0 same in
        rw same (
          ground (
            arith,
            first-revoked (sha256 other) db.users db.sessions,
            ap (λ (h : String). revoke_where h db.sessions) e,
          ))
    | inr ne ↦ rw ne (
        ground (
          arith,
          first-revoked_other (sha256 token) (sha256 other) db.users db.sessions
              (λ e. false≢true (sym ne ∙ (eq_iff (sha256 token) (sha256 other)).1 e)),
        ))
  ]

  first-append_fresh :
      (hash : String) (users : List UserRow) (ss : List SessionRow) (s : SessionRow)
      → any (λ t. t.token_hash == hash) ss ≡ false
      → first (row_of hash users) (ss ++ s ∷ []) ≡ row_of hash users s
  unfolding first any session_user
  first-append_fresh hash users [] s h = ground arith
  first-append_fresh hash users (t ∷ ts) s h = ground (arith, first-append_fresh hash users ts s)

  -- What a successful password check says of the stored row.
  pub check_password_sound :
      (db : AuthDb) (username password : String) (user : AuthUser)
      → authenticate_password sha256 pbkdf2 db username password ≡ some user
      → (row : UserRow) × (find_user (normalize_username (some username)) db.users ≡ some row)
        × (row.enabled ≡ true)
        × (row.password_hash ≡ pbkdf2 password row.salt)
        × (user ≡ row_to_user row)
  unfolding authenticate_password check_password derive_password_hash
  check_password_sound db username password user h =
      elim (Option-cases (find_user (normalize_username (some username)) db.users)) [
        | inl missing ↦ ground arith
        | inr (row, found) ↦ (
          row,
          found,
          ground arith,
          ground (arith, eq_iff row.password_hash (pbkdf2 password row.salt)),
          ground arith,
        )
      ]

  login-done :
      (db db' : AuthDb) (username password token : String) (now : ℕ) (r : LoginResult)
      → login sha256 pbkdf2 db username password token now ≡ done (some r) db'
      → (authenticate_password sha256 pbkdf2 db username password ≡ some r.user)
        × (any (λ s. s.token_hash == sha256 token) db.sessions ≡ false)
        × (r.access_token ≡ token)
        × (db'.users ≡ db.users)
        × (db'.sessions
            ≡ db.sessions
              ++ record {
                token_hash = sha256 token;
                username = r.user.username;
                created_at = now;
                revoked = false;
              }
                ∷ [])
  unfolding login hash_token
  login-done db db' username password token now r h =
      elim (Option-cases (authenticate_password sha256 pbkdf2 db username password)) [
        | inl refused ↦ ground arith
        | inr (user, ok) ↦ elim (Bool-cases (any (λ s. s.token_hash == sha256 token) db.sessions)) [
          | inl clash ↦ ground arith
          | inr fresh ↦ (ground arith, ground arith, ground arith, ground arith, ground arith)
        ]
      ]

  session_user_fresh :
      (users : List UserRow) (ss : List SessionRow) (s : SessionRow) (name : String) (row : UserRow)
      → find_user name users ≡ some row
      → row.enabled ≡ true
      → s.username ≡ row.username
      → s.revoked ≡ false
      → any (λ t. t.token_hash == s.token_hash) ss ≡ false
      → enabled_user sha256 pbkdf2 (first (row_of s.token_hash users) (ss ++ s ∷ []))
        ≡ some (row_to_user row)
  unfolding session_user enabled_user
  session_user_fresh users ss s name row found enabled owner live fresh =
      rw (first-append_fresh s.token_hash users ss s fresh) (
        ground (
          arith,
          eq_refl s.token_hash,
          owner ∙ username-find_user name users row found,
          ap (λ (n : String). find_user n users) (owner ∙ username-find_user name users row found),
        ))

  -- A login that succeeds, with a generated token that is not empty, found an enabled user row of
  -- the given name whose stored hash is that of the given password and the row's salt; its token at
  -- once authenticates the user of this row, who is the one reported, and no user row changes.
  pub authenticate_token-login :
      (db db' : AuthDb) (username password token : String) (now : ℕ) (r : LoginResult)
      → login sha256 pbkdf2 db username password token now ≡ done (some r) db'
      → token ≢ ""
      → (row : UserRow) × (find_user (normalize_username (some username)) db.users ≡ some row)
        × (row.enabled ≡ true)
        × (row.password_hash ≡ pbkdf2 password row.salt)
        × (authenticate_token sha256 pbkdf2 db' r.access_token ≡ some (row_to_user row))
        × (r.user ≡ row_to_user row)
        × (db'.users ≡ db.users)
  authenticate_token-login db db' username password token now r h ne =
      let (checked, fresh, same_token, same_users, appended) =
        login-done db db' username password token now r h in
      let (row, found, enabled, hashed, shown) =
        check_password_sound db username password r.user checked in
      let s : SessionRow = record {
        token_hash = sha256 token;
        username = r.user.username;
        created_at = now;
        revoked = false;
      } in
      let seen =
        session_user_fresh db.users db.sessions s (normalize_username (some username)) row found
          enabled (unfold row_to_user in cc (ap (λ (u : AuthUser). u.username) shown)) refl fresh in
      (
        row,
        found,
        enabled,
        hashed,
        unfold authenticate_token hash_token in
            ground (arith, seen, eq_iff token "", same_users, appended),
        shown,
        same_users,
      )
