-- ===== src/Security/AuthStore/Rows.antt =====
-- The tables of src/mini_rag/security/auth_store.py and the SQL statements that it runs on them.
use mini_enterprise_rag_agen.Common.{
  ℕ, String, Bool, true, Option, none, some, List, [], ◌∷◌, ◌==◌, if◌then◌else◌, Dict,
}

pub record UserRow : Type 0 where
  pub username : String
  pub password_hash : String
  pub salt : String
  pub role : String
  pub enabled : Bool
  pub created_at : ℕ
  pub updated_at : ℕ

pub record SessionRow : Type 0 where
  pub token_hash : String
  pub username : String
  pub created_at : ℕ
  pub revoked : Bool

pub record PolicyRow : Type 0 where
  pub role : String
  pub allowed_kbs : List String
  pub allowed_tools : List String
  pub updated_at : ℕ

pub record AuthDb : Type 0 where
  pub users : List UserRow
  pub sessions : List SessionRow
  pub role_policies : List PolicyRow
  pub metadata : Dict String

-- `fetchone`: the first row that gives a result.
unfoldable pub first {ℓ κ} : {A : Type ℓ} {B : Type κ} → (A → Option B) → List A → Option B
first f [] = none
first f (x ∷ xs) = let rest = first f xs in elim (f x) [ none ↦ rest | some y ↦ some y ]

-- SELECT … FROM users WHERE username = ?
unfoldable pub find_user : String → List UserRow → Option UserRow
find_user name [] = none
find_user name (u ∷ us) =
    let rest = find_user name us in if u.username == name then some u else rest

-- SELECT … FROM role_policies WHERE role = ?
unfoldable pub find_policy : String → List PolicyRow → Option PolicyRow
find_policy role [] = none
find_policy role (p ∷ ps) =
    let rest = find_policy role ps in if p.role == role then some p else rest

-- UPDATE users SET … WHERE username = ?
unfoldable pub update_where : String → (UserRow → UserRow) → List UserRow → List UserRow
update_where name set [] = []
update_where name set (u ∷ us) =
    let rest = update_where name set us in if u.username == name then set u ∷ rest else u ∷ rest

-- UPDATE sessions SET revoked = 1 WHERE token_hash = ?
unfoldable pub revoke_where : String → List SessionRow → List SessionRow
revoke_where hash [] = []
revoke_where hash (s ∷ ss) =
    let rest = revoke_where hash ss in
    if s.token_hash == hash then record s { revoked = true } ∷ rest else s ∷ rest

-- INSERT INTO role_policies … ON CONFLICT(role) DO UPDATE
unfoldable pub put_policy : PolicyRow → List PolicyRow → List PolicyRow
put_policy p [] = p ∷ []
put_policy p (q ∷ qs) = let rest = put_policy p qs in if q.role == p.role then p ∷ qs else q ∷ rest
