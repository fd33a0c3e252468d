-- ===== src/Auth/Permitted.antt =====
-- internal/api/middleware/authz.go: whom the middleware lets pass.
use bingsan.Prelude.{
  Memᴰ, some_of-true, ℕ, String, ◌≡◌, refl, sym, ap, ◌∙◌, Bool, true, false, Option, none, some,
  List, [], ◌∷◌, ◌⊎◌, inl, inr, ◌&&◌, ◌||◌, ◌==◌, eq_iff, arith, leb, Bool-cases, if◌then◌else◌,
  some_of,
}
use bingsan.Updates.Exec.{Result, ok, err}
use bingsan.Auth.{Principal}
use bingsan.Auth.Named.{IsNamed, apart, IsNamed-IsName, find-IsNamed}
use bingsan.Auth.Permissions.{
  Permission, read, write, manage, PermissionRow, AclStore, AclConfig, AclFaults, Forbidden,
  NamespaceName, is_first, split_path, extract_namespace, applies, check_permission,
  has_default_permission, authz, or_default,
}

-- What a granted text is worth: `manage` covers `write`, and that covers `read`.
abbrev pub worth : String → ℕ
worth g = if g == "read" then 1 else if g == "write" then 2 else if g == "manage" then 3 else 0

abbrev pub needs : Permission → ℕ
needs read = 1
needs write = 2
needs manage = 3

abbrev pub covers : Permission → String → Bool
covers required g = leb (needs required) (worth g)

-- Some row of the principal's, on a namespace with this first level, covers what is asked.
abbrev pub granted : AclStore → Principal → String → Permission → Bool
granted store principal namespace required =
    some_of (λ np. applies store principal namespace np && some_of (covers required) np.permissions)
      store.permissions

abbrev pub no_faults : AclFaults
no_faults = record { exact_query = false; manage_query = false; write_query = false }

module _ {A : Type 0} where
  some_of_ext :
      (p q : A → Bool) → ((x : A) → p x ≡ q x) → (xs : List A) → some_of p xs ≡ some_of q xs
  some_of_ext p q h [] = refl
  some_of_ext p q h (x ∷ xs) = rw (h x, some_of_ext p q h xs) refl

  some_of_or :
      (p q : A → Bool) (xs : List A) → (some_of p xs || some_of q xs) ≡ some_of (λ x. p x || q x) xs
  some_of_or p q [] = refl
  some_of_or p q (x ∷ xs) = let rest = some_of_or p q xs in ground arith

module _ (store : AclStore) (principal : Principal) (namespace : String) where
  abbrev holds : (String → Bool) → PermissionRow → Bool
  holds p np = applies store principal namespace np && some_of p np.permissions

  and_or : (a b c : Bool) → ((a && b) || (a && c)) ≡ (a && (b || c))
  and_or true b c = refl
  and_or false b c = refl

  rows_or :
      (p q : String → Bool)
      → (some_of (holds p) store.permissions || some_of (holds q) store.permissions)
        ≡ some_of (holds (λ g. p g || q g)) store.permissions
  rows_or p q =
      some_of_or (holds p) (holds q) store.permissions
      ∙ some_of_ext _ _
          (λ np.
            and_or (applies store principal namespace np) _ _
            ∙ ap (λ b. applies store principal namespace np && b) (some_of_or p q np.permissions))
          store.permissions

-- A text is one of the three or none of them.
texts :
    (g : String)
    → (g ≡ "read")
      ⊎ (g ≡ "write")
      ⊎ (g ≡ "manage")
      ⊎ (((g == "read") ≡ false) × ((g == "write") ≡ false) × ((g == "manage") ≡ false))
texts g = elim (Bool-cases (g == "read")) [
  | inl r ↦ inl ((eq_iff g "read").0 r)
  | inr nr ↦ inr (elim (Bool-cases (g == "write")) [
    | inl w ↦ inl ((eq_iff g "write").0 w)
    | inr nw ↦ inr (elim (Bool-cases (g == "manage")) [
      | inl m ↦ inl ((eq_iff g "manage").0 m)
      | inr nm ↦ inr (nr, nw, nm)
    ])
  ])
]

-- What the queries ask for of a row, one after the other.
abbrev asked : Permission → String → Bool
asked read g = (g == "read" || g == "manage") || g == "write"
asked write g = g == "write" || g == "manage"
asked manage g = g == "manage"

asked-covers : (required : Permission) (g : String) → asked required g ≡ covers required g
asked-covers read g = elim (texts g) [
  | inl r ↦ rw r refl
  | inr (inl w) ↦ rw w refl
  | inr (inr (inl m)) ↦ rw m refl
  | inr (inr (inr (nr, nw, nm))) ↦ rw (nr, nw, nm) refl
]
asked-covers write g = elim (texts g) [
  | inl r ↦ rw r refl
  | inr (inl w) ↦ rw w refl
  | inr (inr (inl m)) ↦ rw m refl
  | inr (inr (inr (nr, nw, nm))) ↦ rw (nr, nw, nm) refl
]
asked-covers manage g = elim (texts g) [
  | inl r ↦ rw r refl
  | inr (inl w) ↦ rw w refl
  | inr (inr (inl m)) ↦ rw m refl
  | inr (inr (inr (nr, nw, nm))) ↦ rw (nr, nw, nm) refl
]

module _ (store : AclStore) (principal : Principal) (namespace : String) where
  asked_rows :
      (required : Permission)
      → some_of (holds store principal namespace (asked required)) store.permissions
        ≡ granted store principal namespace required
  asked_rows required =
      some_of_ext _ _
        (λ np.
          ap (λ b. applies store principal namespace np && b)
            (some_of_ext _ _ (asked-covers required) np.permissions))
        store.permissions

  -- Where no query fails, the three queries of `checkPermission` together say whether some row of the
  -- principal, on a namespace with that first level, holds a permission that covers what is asked:
  -- `manage` covers the others and `write` covers `read`.
  pub check_permission-eq :
      (required : Permission)
      → check_permission no_faults store principal namespace required
        ≡ ok (granted store principal namespace required)
  unfolding check_permission
  check_permission-eq read =
      let e = rows_or store principal namespace (λ g. g == "read") (λ g. g == "manage") in
      let f =
        rows_or store principal namespace (λ g. g == "read" || g == "manage") (λ g. g == "write") in
      let g = asked_rows read in ground arith
  check_permission-eq write =
      let e = rows_or store principal namespace (λ g. g == "write") (λ g. g == "manage") in
      let g = asked_rows write in ground arith
  check_permission-eq manage = let g = asked_rows manage in ground arith

  answered :
      (faults : AclFaults) (required : Permission) (b : Bool)
      → check_permission faults store principal namespace required ≡ ok b
      → check_permission no_faults store principal namespace required ≡ ok b
  unfolding check_permission
  answered faults read b h = ground arith
  answered faults write b h = ground arith
  answered faults manage b h = ground arith

  -- An answer in spite of failing queries is the answer.
  check_permission-ok :
      (faults : AclFaults) (required : Permission) (b : Bool)
      → check_permission faults store principal namespace required ≡ ok b
      → b ≡ granted store principal namespace required
  check_permission-ok faults required b h =
      let sure = answered faults required b h in
      let e = check_permission-eq required in ground arith

module _ (store : AclStore) (principal : Principal) where
  -- A row of the principal's, on a namespace with this first level, that covers what is asked.
  abbrev pub HasRow : String → Permission → Type 0
  HasRow level required =
      (np : PermissionRow) × Memᴰ np store.permissions
      × (np.principal_id ≡ principal.id)
      × (np.principal_type ≡ principal.type)
      × ((n : NamespaceName) × Memᴰ n store.namespaces
          × (n.id ≡ np.namespace_id)
          × ((levels : List String) × (n.name ≡ level ∷ levels)))
      × ((g : String) × Memᴰ g np.permissions × (covers required g ≡ true))

  first_level :
      (level : String) (name : List String)
      → is_first level name ≡ true
      → (levels : List String) × (name ≡ level ∷ levels)
  first_level level [] h = absurd (ground arith)
  first_level level (l ∷ levels) h = (levels, ap (λ x. x ∷ levels) ((eq_iff l level).0 h))

  granted-HasRow :
      (level : String) (required : Permission)
      → granted store principal level required ≡ true
      → HasRow level required
  granted-HasRow level required h =
      let (np, there, k) = some_of-true _ store.permissions h in
      let (n, in_it, l) =
        some_of-true (λ n. n.id == np.namespace_id && is_first level n.name) store.namespaces
          (ground arith) in
      let (g, given, c) = some_of-true (covers required) np.permissions (ground arith) in
      let (levels, e) = first_level level n.name (ground arith) in
      (
        np,
        there,
        (eq_iff np.principal_id principal.id).0 (ground arith),
        (eq_iff np.principal_type principal.type).0 (ground arith),
        (n, in_it, (eq_iff n.id np.namespace_id).0 (ground arith), (levels, e)),
        (g, given, c),
      )

default-covers :
    (required : Permission) (g : String) → has_default_permission g required ≡ covers required g
default-covers read g = elim (texts g) [
  | inl r ↦ rw r refl
  | inr (inl w) ↦ rw w refl
  | inr (inr (inl m)) ↦ rw m refl
  | inr (inr (inr (nr, nw, nm))) ↦ rw (nr, nw, nm) refl
]
default-covers write g = elim (texts g) [
  | inl r ↦ rw r refl
  | inr (inl w) ↦ rw w refl
  | inr (inr (inl m)) ↦ rw m refl
  | inr (inr (inr (nr, nw, nm))) ↦ rw (nr, nw, nm) refl
]
default-covers manage g = elim (texts g) [
  | inl r ↦ rw r refl
  | inr (inl w) ↦ rw w refl
  | inr (inr (inl m)) ↦ rw m refl
  | inr (inr (inr (nr, nw, nm))) ↦ rw (nr, nw, nm) refl
]

module _ (cfg : AclConfig) (store : AclStore) (required : Permission) (path : String) where
  -- Who may do what `required` says on this path.
  abbrev pub IsAllowed : Option Principal → Type 0
  IsAllowed none = cfg.acl_enabled ≡ false
  IsAllowed (some p) =
      (cfg.acl_enabled ≡ false)
      ⊎ (¬ ((level : String) × IsNamed (split_path path) level))
      ⊎ ((level : String) × IsNamed (split_path path) level × HasRow store p level required)
      ⊎ (covers required cfg.default_permission ≡ true)

  -- The request passes by the answer of the queries, or by the default.
  by_row :
      (faults : AclFaults) (p : Principal) (b : Bool)
      → IsNamed (split_path path) (extract_namespace path)
      → check_permission faults store p (extract_namespace path) required ≡ ok b
      → or_default cfg required (ok b) ≡ none
      → IsAllowed (some p)
  by_row faults p true named c h = inr (
      inr (
        inl (
          extract_namespace path,
          named,
          granted-HasRow store p _ required
              (sym (check_permission-ok store p (extract_namespace path) faults required true c)),
        )))
  by_row faults p false named c h =
      let e = default-covers required cfg.default_permission in
      inr (inr (inr (sym e ∙ ground arith)))

  by_answer :
      (faults : AclFaults) (p : Principal) (r : Result Forbidden Bool)
      → IsNamed (split_path path) (extract_namespace path)
      → check_permission faults store p (extract_namespace path) required ≡ r
      → or_default cfg required r ≡ none
      → IsAllowed (some p)
  by_answer faults p (err e) named c h = absurd (ground arith)
  by_answer faults p (ok b) named c h = by_row faults p b named c h

  let_pass :
      (faults : AclFaults) (p : Principal)
      → authz faults cfg store required (some p) path ≡ none
      → IsAllowed (some p)
  unfolding authz
  let_pass faults p h = elim (find-IsNamed (split_path path)) [
    | inr (e, unnamed) ↦ inr (inl unnamed)
    | inl named ↦ elim (Bool-cases cfg.acl_enabled) [
      | inr off ↦ inl off
      | inl on ↦
          let n = apart (extract_namespace path) "" (IsNamed-IsName named).0 in
          by_answer faults p _ named refl (ground arith)
    ]
  ]

  -- Whatever queries fail, `Authz` lets a request pass only in four cases. Access lists are
  -- disabled; or there is a principal, and no part of the path that follows a part `namespaces` is a
  -- name, where an empty part, `tables`, `views` and `properties` are none; or a row of the
  -- principal, on some namespace whose first level is the first such name, covers what is asked; or
  -- the default permission covers it.
  pub authz-IsAllowed :
      (faults : AclFaults) (principal : Option Principal)
      → authz faults cfg store required principal path ≡ none
      → IsAllowed principal
  unfolding authz
  authz-IsAllowed faults none h = ground arith
  authz-IsAllowed faults (some p) h = let_pass faults p h
