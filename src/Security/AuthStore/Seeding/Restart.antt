-- ===== src/Security/AuthStore/Seeding/Restart.antt =====
-- A second start of src/mini_rag/security/auth_store.py on the tables that a first one left.
use mini_enterprise_rag_agen.Common.{
  ℕ, String, ◌≡◌, refl, ap, ◌∙◌, Bool, true, ◌||◌, any, List, [], ◌∷◌, ◌++◌, ◌==◌, mem, all,
  all-mem, is_some, sorted, arith, Bool-cases, Option-cases, inl, inr, eq_iff, eq_refl, lookup,
  lookup-insert,
}
use mini_enterprise_rag_agen.Security.Permissions.{valid_roles}
use mini_enterprise_rag_agen.Security.AuthStore.Rows.{
  UserRow, PolicyRow, AuthDb, find_user, find_policy,
}
use mini_enterprise_rag_agen.Security.AuthStore.Seeding.{
  demo_users, ignore_user, seed_role, seed_roles, with_skill, migrate_role, migrate_roles,
  is_marked, migrate_skill_runtime_policy, demo_row, seed_users, seed_defaults,
}
use mini_enterprise_rag_agen.Security.AuthStore.Seeding.Settled.{
  is_settled, settled-seed_role, find-update_policy, with_skill-fresh, seed_role_found,
}

abbrev pub are_settled : List String → List PolicyRow → Bool
are_settled roles rows = all (λ r. is_settled r rows) roles

seed_role_settled :
    (role : String) (now : ℕ) (rows : List PolicyRow)
    → is_settled role rows ≡ true
    → seed_role now role rows ≡ rows
unfolding is_settled
seed_role_settled role now rows h = elim (Option-cases (find_policy role rows)) [
  | inl missing ↦ ground arith
  | inr (row, found) ↦ seed_role_found role now rows row found ∙ ground (arith, found)
]

settled-seed_roles :
    (r : String) (roles : List String) (now : ℕ) (rows : List PolicyRow)
    → is_settled r (seed_roles now roles rows) ≡ (mem r roles || is_settled r rows)
unfolding seed_roles mem
settled-seed_roles r [] now rows = refl
settled-seed_roles r (role ∷ roles) now rows = ground (
  arith,
  settled-seed_roles r roles now (seed_role now role rows),
  settled-seed_role r role now rows,
  eq_iff r role,
  eq_iff role r,
)

seed_roles_settled :
    (roles : List String) (now : ℕ) (rows : List PolicyRow)
    → are_settled roles rows ≡ true
    → seed_roles now roles rows ≡ rows
unfolding seed_roles all
seed_roles_settled [] now rows h = refl
seed_roles_settled (role ∷ roles) now rows h =
    ap (seed_roles now roles) (seed_role_settled role now rows (ground arith))
    ∙ seed_roles_settled roles now rows (ground arith)

settled-migrate_role :
    (r role : String) (now : ℕ) (rows : List PolicyRow)
    → is_settled r rows ≡ true
    → is_settled r (migrate_role now role rows) ≡ true
unfolding is_settled migrate_role
settled-migrate_role r role now rows h = elim (Option-cases (find_policy r rows)) [
  | inl missing ↦ ground arith
  | inr (row, found) ↦ ground (
    arith,
    find-update_policy r role (with_skill now) rows (λ p. refl),
    with_skill-fresh now row,
    found,
  )
]

settled-migrate_roles :
    (r : String) (roles : List String) (now : ℕ) (rows : List PolicyRow)
    → is_settled r rows ≡ true
    → is_settled r (migrate_roles now roles rows) ≡ true
unfolding migrate_roles
settled-migrate_roles r [] now rows h = h
settled-migrate_roles r (role ∷ roles) now rows h =
    settled-migrate_roles r roles now (migrate_role now role rows)
      (settled-migrate_role r role now rows h)

find-append_user :
    (name : String) (u : UserRow) (rows : List UserRow)
    → is_some (find_user name (rows ++ u ∷ []))
      ≡ (u.username == name || is_some (find_user name rows))
unfolding find_user
find-append_user name u [] = ground arith
find-append_user name u (v ∷ rows) = ground (arith, find-append_user name u rows)

find-ignore_user :
    (name : String) (u : UserRow) (rows : List UserRow)
    → is_some (find_user name (ignore_user u rows))
      ≡ (u.username == name || is_some (find_user name rows))
unfolding ignore_user
find-ignore_user name u rows = elim (Bool-cases (is_some (find_user u.username rows))) [
  | inl there ↦ rw (ignore_user, there) (ground (arith, there, eq_iff u.username name))
  | inr missing ↦ rw (ignore_user, missing) (find-append_user name u rows)
]

all_intro :
    (p : String → Bool) (xs : List String)
    → ((x : String) → mem x xs ≡ true → p x ≡ true)
    → all p xs ≡ true
unfolding all mem
all_intro p [] h = refl
all_intro p (x ∷ xs) h =
    ground (arith, h x, eq_refl x, all_intro p xs (λ y m. h y (ground (arith, m))))

migrated-settled :
    (now : ℕ) (db : AuthDb)
    → are_settled (sorted valid_roles) db.role_policies ≡ true
    → are_settled (sorted valid_roles) (migrate_skill_runtime_policy now db).role_policies ≡ true
unfolding migrate_skill_runtime_policy
migrated-settled now db h =
    elim (Bool-cases (is_marked (lookup "skill_runtime_policy_v1" db.metadata))) [
      | inl marked ↦ rw (migrate_skill_runtime_policy, marked) h
      | inr unmarked ↦
          rw (migrate_skill_runtime_policy, unmarked)
            (all_intro _ _ (λ r m.
              settled-migrate_roles r (sorted valid_roles) now db.role_policies
                (all-mem (λ x. is_settled x db.role_policies) r (sorted valid_roles) h m)))
    ]

migrated_marked :
    (now : ℕ) (db : AuthDb)
    → is_marked (lookup "skill_runtime_policy_v1" (migrate_skill_runtime_policy now db).metadata)
      ≡ true
unfolding migrate_skill_runtime_policy
migrated_marked now db =
    elim (Bool-cases (is_marked (lookup "skill_runtime_policy_v1" db.metadata))) [
      | inl marked ↦ rw (migrate_skill_runtime_policy, marked) marked
      | inr unmarked ↦
          rw
            (
              migrate_skill_runtime_policy,
              unmarked,
              lookup-insert "skill_runtime_policy_v1" "skill_runtime_policy_v1" "1" db.metadata,
            )
            refl
    ]

migrate_marked :
    (now : ℕ) (db : AuthDb)
    → is_marked (lookup "skill_runtime_policy_v1" db.metadata) ≡ true
    → migrate_skill_runtime_policy now db ≡ db
unfolding migrate_skill_runtime_policy
migrate_marked now db marked = rw (migrate_skill_runtime_policy, marked) refl

seeded-settled :
    (now : ℕ) (rows : List PolicyRow)
    → are_settled (sorted valid_roles) (seed_roles now (sorted valid_roles) rows) ≡ true
seeded-settled now rows =
    all_intro _ _ (λ r m.
      settled-seed_roles r (sorted valid_roles) now rows ∙ ap (λ b. b || is_settled r rows) m)

ignore_present :
    (u : UserRow) (rows : List UserRow)
    → is_some (find_user u.username rows) ≡ true
    → ignore_user u rows ≡ rows
unfolding ignore_user
ignore_present u rows there = rw (ignore_user, there) refl

module _ (sha256 : String → String) (pbkdf2 : String → String → String) where
  abbrev pub Account : Type 0
  Account = String × (String × String)

  find-seed_users :
      (name : String) (salt : String → String) (now : ℕ) (users : List Account)
      (rows : List UserRow)
      → is_some (find_user name (seed_users sha256 pbkdf2 salt now users rows))
        ≡ (any (λ (u : Account). u.0 == name) users || is_some (find_user name rows))
  unfolding seed_users any
  find-seed_users name salt now [] rows = refl
  find-seed_users name salt now ((username, (password, role)) ∷ users) rows = ground (
    arith,
    find-seed_users name salt now users
        (ignore_user (demo_row sha256 pbkdf2 salt now username password role) rows),
    find-ignore_user name (demo_row sha256 pbkdf2 salt now username password role) rows,
  )

  seed_users_present :
      (salt : String → String) (now : ℕ) (users : List Account) (rows : List UserRow)
      → all (λ (u : Account). is_some (find_user u.0 rows)) users ≡ true
      → seed_users sha256 pbkdf2 salt now users rows ≡ rows
  unfolding seed_users all ignore_user
  seed_users_present salt now [] rows h = refl
  seed_users_present salt now ((username, (password, role)) ∷ users) rows h =
      ap (seed_users sha256 pbkdf2 salt now users) (
        ignore_present (demo_row sha256 pbkdf2 salt now username password role) rows (ground arith))
      ∙ seed_users_present salt now users rows (ground arith)

  all_same :
      (p q : Account → Bool) (users : List Account)
      → ((u : Account) → p u ≡ q u)
      → all p users ≡ all q users
  unfolding all
  all_same p q [] h = refl
  all_same p q (u ∷ users) h = ground (arith, h u, all_same p q users h)

  demo-present :
      (salt : String → String) (now : ℕ) (rows : List UserRow)
      → all
          (λ (u : Account).
            is_some (find_user u.0 (seed_users sha256 pbkdf2 salt now demo_users rows)))
          demo_users
        ≡ true
  unfolding all any
  demo-present salt now rows =
      all_same _
        (λ (u : Account).
          any (λ (v : Account). v.0 == u.0) demo_users || is_some (find_user u.0 rows))
        demo_users (λ u. find-seed_users u.0 salt now demo_users rows)

  -- A second start, with other salts and at another time, changes no row.
  pub seed_defaults-again :
      (salt salt' : String → String) (now later : ℕ) (db : AuthDb)
      → seed_defaults sha256 pbkdf2 salt' later (seed_defaults sha256 pbkdf2 salt now db)
        ≡ seed_defaults sha256 pbkdf2 salt now db
  unfolding seed_defaults
  seed_defaults-again salt salt' now later db =
      let roles = sorted valid_roles in
      let seeded = record db { role_policies = seed_roles now roles db.role_policies } in
      let migrated = migrate_skill_runtime_policy now seeded in
      let started = seed_defaults sha256 pbkdf2 salt now db in
      let add_users = λ (d : AuthDb). record d {
        users = seed_users sha256 pbkdf2 salt' later demo_users d.users;
      } in
      ap
        (λ rows.
          add_users (migrate_skill_runtime_policy later (record started { role_policies = rows })))
        (seed_roles_settled roles later migrated.role_policies
          (migrated-settled now seeded (seeded-settled now db.role_policies)))
      ∙ (ap add_users (migrate_marked later started (migrated_marked now seeded))
          ∙ ap (λ users. record started { users = users })
              (seed_users_present salt' later demo_users started.users
                (demo-present salt now migrated.users)))
