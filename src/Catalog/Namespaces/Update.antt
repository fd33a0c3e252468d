-- ===== src/Catalog/Namespaces/Update.antt =====
-- internal/api/handlers/namespace.go: what UpdateNamespaceProperties leaves for GetNamespace.
use bingsan.Prelude.{
  String, ◌≡◌, refl, sym, ap, ◌∙◌, Bool, true, false, Option, none, some, List, [], ◌∷◌, ◌==◌,
  eq_iff, arith, Bool-cases, Option-cases, inl, inr, find, some_of, if◌then◌else◌,
}
use bingsan.Updates.Exec.{ok, err}
use bingsan.Catalog.{Namespace, CatalogRows, namespace_not_found, named}
use bingsan.Catalog.Namespaces.{
  lookup, put, drop_key, put_all, remove_all, set_properties, answer_namespace, get_namespace,
  UpdateNamespacePropertiesRequest, UpdateNamespacePropertiesResponse, update_found,
  update_namespace_properties,
}

lookup-put :
    (k j v : String) (m : List (String × String))
    → lookup k (put j v m) ≡ (if j == k then some v else lookup k m)
unfolding lookup put
lookup-put k j v [] = refl
lookup-put k j v ((i, w) ∷ m) =
    ground (arith, eq_iff i j, eq_iff i k, eq_iff j k, lookup-put k j v m)

lookup-drop_key :
    (k j : String) (m : List (String × String))
    → lookup k (drop_key j m) ≡ (if j == k then none else lookup k m)
unfolding lookup drop_key
lookup-drop_key k j [] = ground arith
lookup-drop_key k j ((i, w) ∷ m) =
    ground (arith, eq_iff i j, eq_iff i k, eq_iff j k, lookup-drop_key k j m)

-- The last update of a key.
abbrev pub or_else : Option String → Option String → Option String
or_else (some v) o = some v
or_else none o = o

abbrev pub latest : String → List (String × String) → Option String
latest k [] = none
latest k ((j, v) ∷ us) = or_else (latest k us) (if j == k then some v else none)

lookup-put_all :
    (k : String) (us m : List (String × String))
    → lookup k (put_all us m) ≡ or_else (latest k us) (lookup k m)
unfolding put_all
lookup-put_all k [] m = refl
lookup-put_all k ((j, v) ∷ us) m =
    let e = lookup-put_all k us (put j v m) in let f = lookup-put k j v m in ground arith

lookup-remove_all :
    (k : String) (ks : List String) (m : List (String × String))
    → lookup k (remove_all ks m).0 ≡ (if some_of (λ r. r == k) ks then none else lookup k m)
unfolding remove_all
lookup-remove_all k [] m = refl
lookup-remove_all k (j ∷ ks) m =
    let e = lookup-remove_all k ks (drop_key j m) in
    let f = lookup-drop_key k j m in
    let g = lookup-remove_all k ks m in
    elim (Option-cases (lookup j m)) [
      | inl missing ↦ ground (arith, eq_iff j k)
      | inr (v, there) ↦ ground arith
    ]

find-set_properties :
    (name : List String) (m : List (String × String)) (ns : List Namespace) (n : Namespace)
    → find (named name) ns ≡ some n
    → find (named name) (set_properties name m ns) ≡ some (record n { properties = m })
unfolding set_properties
find-set_properties name m [] n h = absurd (ground arith)
find-set_properties name m (x ∷ ns) n h = elim (Bool-cases (named name x)) [
  | inl hit ↦ ground arith
  | inr miss ↦ let rest = find-set_properties name m ns n (ground arith) in ground arith
]

module _ (req : UpdateNamespacePropertiesRequest) (name : List String) (d : CatalogRows)
    (answer : UpdateNamespacePropertiesResponse) (after : CatalogRows) where
  -- The properties that a key has after the request: none where it is among the removals, then the
  -- last update, then what it was.
  abbrev pub expected : Namespace → String → Option String
  expected n k =
      if some_of (λ r. r == k) req.removals
      then none
      else or_else (latest k req.updates) (lookup k n.properties)

  abbrev pub IsUpdated : Type 0
  IsUpdated =
      (n : Namespace) × (m : List (String × String)) × (find (named name) d.namespaces ≡ some n)
      × (get_namespace false name after ≡ ok (record { namespace = name; properties = m }))
      × ((k : String) → lookup k m ≡ expected n k)

  update_found-IsUpdated :
      (down : Bool) (o : Option Namespace)
      → find (named name) d.namespaces ≡ o
      → update_found down req name d (elim o [ none ↦ err namespace_not_found | some n ↦ ok n ])
        ≡ (ok answer, after)
      → IsUpdated
  unfolding get_namespace
  update_found-IsUpdated down none found h = absurd (ground arith)
  update_found-IsUpdated true (some n) found h = absurd (ground arith)
  update_found-IsUpdated false (some n) found h =
      let m = (remove_all req.removals (put_all req.updates n.properties)).0 in
      let is : after.namespaces ≡ set_properties name m d.namespaces =
        ap (λ p. p.1.namespaces) (sym h) in
      let there = find-set_properties name m d.namespaces n found in
      (
        n,
        m,
        found,
        ap
              (λ ns.
                answer_namespace name
                  (elim (find (named name) ns) [ none ↦ err namespace_not_found | some n ↦ ok n ]))
              is
            ∙ rw there refl,
        λ k.
            let e = lookup-remove_all k req.removals (put_all req.updates n.properties) in
            let f = lookup-put_all k req.updates n.properties in ground arith,
      )

  -- After an update that succeeds, GetNamespace answers with properties in which a key that is among
  -- the removals has no value, another has that of its last update, and the rest are as they were.
  pub update_namespace_properties-IsUpdated :
      (down : Bool × Bool)
      → update_namespace_properties down (some req) name d ≡ (ok answer, after)
      → IsUpdated
  unfolding update_namespace_properties
  update_namespace_properties-IsUpdated (true, down) h = absurd (ground arith)
  update_namespace_properties-IsUpdated (false, down) h = update_found-IsUpdated down _ refl h
