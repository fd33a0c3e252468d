-- ===== src/Catalog/Namespaces/Create.antt =====
-- internal/api/handlers/namespace.go: what CreateNamespace leaves for GetNamespace and NamespaceExists.
use bingsan.Prelude.{
  String, ◌≡◌, refl, Bool, false, some, List, [], ◌∷◌, arith, Bool-cases, inl, inr, find-last,
  some_of, some_of-last,
}
use bingsan.Updates.Exec.{ok, err}
use bingsan.Catalog.{Namespace, CatalogRows, not_found, named, same_name_refl}
use bingsan.Catalog.Namespaces.{
  Published, CreateNamespaceRequest, NamespaceAnswer, insert_namespace, create_namespace,
  get_namespace, namespace_exists,
}

module _ (down : Bool) (id : String) (d : CatalogRows) (answer : NamespaceAnswer)
    (after : CatalogRows) (published : Published) where
  abbrev pub IsMade : Type 0
  IsMade =
      (namespace_exists false answer.namespace d ≡ err not_found)
      × (namespace_exists false answer.namespace after ≡ ok tt)
      × (get_namespace false answer.namespace after ≡ ok answer)

  insert_namespace-IsMade :
      (req : CreateNamespaceRequest)
      → insert_namespace req down id d ≡ (ok answer, after, published)
      → IsMade
  unfolding get_namespace namespace_exists
  insert_namespace-IsMade req h =
      let n : Namespace = record { id = id; name = req.namespace; properties = req.properties } in
      elim (Bool-cases (some_of (named req.namespace) d.namespaces)) [
        | inl taken ↦ absurd (ground arith)
        | inr free ↦ elim (Bool-cases down) [
          | inl failed ↦ absurd (ground arith)
          | inr up ↦
              let same : req.namespace ≡ answer.namespace = ground arith in
              let own = same_name_refl req.namespace in
              let last = find-last (named req.namespace) d.namespaces {x = n} free own in
              let there = some_of-last (named req.namespace) d.namespaces {x = n} own in
              rw (← same) (ground arith, ground arith, ground arith)
        ]
      ]

  -- A namespace that has been made was not there before, and now it is there, with the properties of
  -- the answer.
  pub create_namespace-IsMade :
      (req : CreateNamespaceRequest)
      → create_namespace (some req) down id d ≡ (ok answer, after, published)
      → IsMade
  unfolding create_namespace
  create_namespace-IsMade req h = go req.namespace refl
    where
      go : (ns : List String) → req.namespace ≡ ns → IsMade
      go [] e = absurd (ground arith)
      go (x ∷ xs) e = insert_namespace-IsMade req (ground arith)
