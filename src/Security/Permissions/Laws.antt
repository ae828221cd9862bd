-- ===== src/Security/Permissions/Laws.antt =====
-- Roles: what `normalize_role` of src/mini_rag/security/permissions.py yields, and the endpoints.
use mini_enterprise_rag_agen.Common.{
  String, ◌≡◌, refl, Bool, true, Option, some, List, [], ◌∷◌, arith, mem, all, all-mem, strip,
  lower, text_or, Bool-cases, inl, inr, false, ◌==◌, eq_iff, lookup, not,
}
use mini_enterprise_rag_agen.Security.Permissions.{
  normalize_role, valid_roles, default_role, can_access_endpoint, check_endpoint_permission,
}

guest-mem : mem "guest" valid_roles ≡ true
unfolding mem
guest-mem = refl

pub normalize_role-mem : (role : Option String) → mem (normalize_role role) valid_roles ≡ true
unfolding normalize_role
normalize_role-mem role =
    elim (Bool-cases (mem (lower (strip (text_or role default_role))) valid_roles)) [
      | inl known ↦ rw known known
      | inr unknown ↦ rw unknown guest-mem
    ]

-- To prove a fact of every caller, test it on the known roles.
pub of_valid_roles :
    (p : String → Bool)
    → all p valid_roles ≡ true
    → (role : Option String) → p (normalize_role role) ≡ true
of_valid_roles p h role = all-mem p (normalize_role role) valid_roles h (normalize_role-mem role)

-- A role name that the tables know is left as it is.
normalize_role_known : all (λ r. normalize_role (some r) == r) valid_roles ≡ true
unfolding normalize_role all mem strip lower
normalize_role_known = refl

pub normalize_role_idem :
    (role : Option String) → normalize_role (some (normalize_role role)) ≡ normalize_role role
normalize_role_idem role =
    (eq_iff _ _).0 (of_valid_roles (λ r. normalize_role (some r) == r) normalize_role_known role)

-- Whatever the caller passes, the role that the checks use is one of the known roles, and
-- normalising it again, as nested checks do, changes nothing.
pub normalize_role_sound :
    (role : Option String)
    → (mem (normalize_role role) valid_roles ≡ true)
      × (normalize_role (some (normalize_role role)) ≡ normalize_role role)
normalize_role_sound role = (normalize_role-mem role, normalize_role_idem role)

abbrev pub restricted_endpoints : List String
restricted_endpoints = "trace" ∷ "eval" ∷ "admin_kbs" ∷ "admin_tools" ∷ "admin_audit" ∷ []

-- An equation of two tests, as a test.
abbrev same : Bool → Bool → Bool
same true b = b
same false b = not b

same-eq : (a b : Bool) → same a b ≡ true → a ≡ b
same-eq a b h = ground arith

only_admin :
    all
      (λ r. all (λ e. same (can_access_endpoint (some r) e) (r == "admin")) restricted_endpoints)
      valid_roles
    ≡ true
unfolding can_access_endpoint normalize_role all mem strip lower lookup
only_admin = refl

-- For the trace, evaluation and administration endpoints the decision is `allowed` exactly if the
-- normalised role is "admin".
pub check_endpoint_permission-admin :
    (role : Option String) (endpoint : String)
    → mem endpoint restricted_endpoints ≡ true
    → (check_endpoint_permission role endpoint).allowed ≡ (normalize_role role == "admin")
unfolding check_endpoint_permission
check_endpoint_permission-admin role endpoint h =
    let r = normalize_role role in
    same-eq _ _ (
      all-mem (λ e. same (can_access_endpoint (some r) e) (r == "admin")) endpoint
        restricted_endpoints
        (of_valid_roles
          (λ q.
            all (λ e. same (can_access_endpoint (some q) e) (q == "admin")) restricted_endpoints)
          only_admin role)
        h)
