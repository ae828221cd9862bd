-- ===== src/Security/Permissions/Bases.antt =====
-- Knowledge-base access of src/mini_rag/security/permissions.py and `normalize_kb_ids` of
-- src/mini_rag/ingestion/kb_config.py.
use mathlib.Core.List.{append-nil, append_assoc}
use mini_enterprise_rag_agen.Common.{
  sym, ◌∙◌, String, ◌≡◌, ◌≢◌, refl, true, false, ◌&&◌, ◌||◌, not, Option, none, some, List, [], ◌∷◌,
  ◌++◌, map, arith, ◌==◌, eq_iff, Bool-cases, inl, inr, strip, lower, mem, to_set, filter, Bool,
  is_empty, all, lookup, mem-filter, mem-to_set, mem-sorted, mem_snoc, all-mem,
}
use mini_enterprise_rag_agen.Security.Permissions.{
  kb_catalog, normalize_kb_ids_from, normalize_kb_ids, RolePolicyMap, normalize_role, valid_roles,
  get_allowed_kbs, filter_allowed_kbs, Checked, granted, denied, assert_can_access_kbs, policy_of,
}
use mini_enterprise_rag_agen.Security.Permissions.Laws.{normalize_role_idem, of_valid_roles}

abbrev clean : String → String
clean item = lower (strip item)

-- The list that the loop builds holds what it held before and the known, cleaned items.
mem-normalize_kb_ids_from :
    (x : String) (acc items : List String)
    → mem x (normalize_kb_ids_from acc items)
      ≡ (mem x acc || (mem x kb_catalog && mem x (map clean items)))
unfolding normalize_kb_ids_from mem
mem-normalize_kb_ids_from x acc [] = ground arith
mem-normalize_kb_ids_from x acc (item ∷ rest) = ground (
  arith,
  mem-normalize_kb_ids_from x acc rest,
  mem-normalize_kb_ids_from x (acc ++ clean item ∷ []) rest,
  mem_snoc x (clean item) acc,
  eq_iff x (clean item),
)

-- The normalised ids are exactly the catalog's ids among the trimmed, lower-cased items.
pub mem-normalize_kb_ids :
    (x : String) (items : List String)
    → mem x (normalize_kb_ids (some items)) ≡ (mem x kb_catalog && mem x (map clean items))
unfolding normalize_kb_ids mem
mem-normalize_kb_ids x items = mem-normalize_kb_ids_from x [] items

-- A list that the loop would append to `acc` as it is.
abbrev Normal : List String → List String → Type 0
Normal acc [] = Unit
Normal acc (x ∷ xs) =
    (clean x ≡ x) × (mem x kb_catalog ≡ true) × (mem x acc ≡ false) × Normal (acc ++ x ∷ []) xs

normalize-Normal : (acc xs : List String) → Normal acc xs → normalize_kb_ids_from acc xs ≡ acc ++ xs
unfolding normalize_kb_ids_from
normalize-Normal acc [] h = sym (append-nil acc)
normalize-Normal acc (x ∷ xs) (same, known, new, rest) =
    rw (same, known, new) (normalize-Normal (acc ++ x ∷ []) xs rest ∙ append_assoc acc (x ∷ []) xs)

Normal-snoc :
    (acc xs : List String) (x : String)
    → Normal acc xs
    → clean x ≡ x
    → mem x kb_catalog ≡ true
    → mem x (acc ++ xs) ≡ false
    → Normal acc (xs ++ x ∷ [])
Normal-snoc acc [] x h same known new = (same, known, rw (append-nil acc) at new, tt)
Normal-snoc acc (y ∷ ys) x (a, b, c, h) same known new =
    (a, b, c, Normal-snoc (acc ++ y ∷ []) ys x h same known (rw (append_assoc acc (y ∷ []) ys) new))

catalog_clean : all (λ k. clean k == k) kb_catalog ≡ true
unfolding all strip lower kb_catalog
catalog_clean = refl

Normal-normalize :
    (acc items : List String) → Normal [] acc → Normal [] (normalize_kb_ids_from acc items)
unfolding normalize_kb_ids_from
Normal-normalize acc [] h = h
Normal-normalize acc (item ∷ rest) h =
    elim (Bool-cases (mem (clean item) kb_catalog && not (mem (clean item) acc))) [
      | inl new ↦ rw new (
          Normal-normalize (acc ++ clean item ∷ []) rest (
            Normal-snoc [] acc (clean item) h
              ((eq_iff _ _).0
                (all-mem (λ k. clean k == k) (clean item) kb_catalog catalog_clean (ground arith)))
              (ground arith) (ground arith)))
      | inr old ↦ rw old (Normal-normalize acc rest h)
    ]

-- Normalising ids that are already normalised changes nothing: no order, no duplicate, no case.
pub normalize_kb_ids_idem :
    (items : List String)
    → normalize_kb_ids (some (normalize_kb_ids (some items))) ≡ normalize_kb_ids (some items)
unfolding normalize_kb_ids
normalize_kb_ids_idem items = normalize-Normal [] _ (Normal-normalize [] items tt)

mem-is_empty : (x : String) (xs : List String) → mem x xs ≡ true → is_empty xs ≡ false
unfolding mem
mem-is_empty x [] h = cc
mem-is_empty x (y ∷ ys) h = refl

-- A knowledge base is let through exactly if the role may read it and the caller asked for it, or
-- asked for no known one.
pub mem-filter_allowed_kbs :
    (role : Option String) (requested : Option (List String)) (policies : RolePolicyMap)
    (kb : String)
    → mem kb (filter_allowed_kbs role requested policies) ≡ (
        mem kb (get_allowed_kbs role policies)
        && (is_empty (normalize_kb_ids requested) || mem kb (normalize_kb_ids requested)))
unfolding filter_allowed_kbs
mem-filter_allowed_kbs role requested policies kb =
    let allowed = get_allowed_kbs role policies in
    let ids = normalize_kb_ids requested in
    ground (
      arith,
      mem-sorted kb (to_set allowed),
      mem-to_set kb allowed,
      mem-sorted kb (filter (λ k. mem k (to_set allowed)) ids),
      mem-filter kb (λ k. mem k (to_set allowed)) ids,
    )

-- The caller may read this base and asked for it, or asked for no known one.
unfoldable pub is_open : Option String → Option (List String) → RolePolicyMap → String → Bool
is_open role requested policies kb =
    mem kb (get_allowed_kbs role policies)
    && (is_empty (normalize_kb_ids requested) || mem kb (normalize_kb_ids requested))

-- What a check of knowledge bases must answer: a list with just the open ones and at least one, or
-- a refusal where none is open.
unfoldable pub IsVerdict : (String → Bool) → Checked (List String) → Type 0
IsVerdict open_ (granted ids) = ((kb : String) → mem kb ids ≡ open_ kb) × (is_empty ids ≡ false)
IsVerdict open_ (denied message) = (kb : String) → open_ kb ≡ false

granted-filter_allowed_kbs :
    (shown : Option (List String) → String) (role : Option String)
    (requested : Option (List String)) (policies : RolePolicyMap) (ids : List String)
    → assert_can_access_kbs shown role requested policies ≡ granted ids
    → ids ≡ filter_allowed_kbs role requested policies
unfolding assert_can_access_kbs
granted-filter_allowed_kbs shown role requested policies ids e = ground arith

-- Every answer is right: a granted list holds at least one knowledge base, and just those that the
-- role may read and that were asked for, or all the role may read where no known one was asked for;
-- access is denied only if there is none of these.
pub assert_can_access_kbs_sound :
    (shown : Option (List String) → String) (role : Option String)
    (requested : Option (List String)) (policies : RolePolicyMap)
    → IsVerdict
        (is_open role requested policies)
        (assert_can_access_kbs shown role requested policies)
unfolding assert_can_access_kbs IsVerdict is_open
assert_can_access_kbs_sound shown role requested policies =
    elim (Bool-cases (is_empty (filter_allowed_kbs role requested policies))) [
      | inl none_left ↦
          rw (assert_can_access_kbs, none_left)
            (λ kb. ground (
              arith,
              mem-filter_allowed_kbs role requested policies kb,
              mem-is_empty kb (filter_allowed_kbs role requested policies),
            ))
      | inr some_left ↦
          rw (assert_can_access_kbs, some_left)
            (mem-filter_allowed_kbs role requested policies, some_left)
    ]

get_allowed_kbs_idem :
    (role : Option String) (policies : RolePolicyMap)
    → get_allowed_kbs (some (normalize_role role)) policies ≡ get_allowed_kbs role policies
unfolding get_allowed_kbs
get_allowed_kbs_idem role policies = ground (arith, normalize_role_idem role)

-- For every role but these two the finance knowledge base is not among the role's own.
finance_table :
    all
      (λ r. r == "admin" || r == "finance" || not (mem "finance" (get_allowed_kbs (some r) none)))
      valid_roles
    ≡ true
unfolding all get_allowed_kbs policy_of normalize_role mem strip lower lookup
finance_table = refl

-- With no stored policies, a list granted to a role other than "admin" and "finance" never holds
-- the finance knowledge base, whatever was requested.
pub assert_can_access_kbs-finance :
    (shown : Option (List String) → String) (role : Option String)
    (requested : Option (List String)) (ids : List String)
    → assert_can_access_kbs shown role requested none ≡ granted ids
    → normalize_role role ≢ "admin"
    → normalize_role role ≢ "finance"
    → mem "finance" ids ≡ false
assert_can_access_kbs-finance shown role requested ids e not_admin not_finance = ground (
  arith,
  granted-filter_allowed_kbs shown role requested none ids e,
  mem-filter_allowed_kbs role requested none "finance",
  of_valid_roles
      (λ r. r == "admin" || r == "finance" || not (mem "finance" (get_allowed_kbs (some r) none)))
      finance_table role,
  get_allowed_kbs_idem role none,
  eq_iff (normalize_role role) "admin",
  eq_iff (normalize_role role) "finance",
)
