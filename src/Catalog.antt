-- ===== src/Catalog.antt =====
-- internal/api/handlers/namespace.go, and of table.go and view.go what lists, drops and renames. The
-- rows that the SQL reads and writes are lists; which statements fail is an argument.
pub mod Pages
pub mod Namespaces
pub mod Items
mod Tests
use Prim.Native.String
use bingsan.Prelude.{
  ℕ, String, Bool, true, false, Option, none, some, List, [], ◌∷◌, find, some_of, ◌&&◌, ◌==◌,
  eq_iff, eq_refl, ◌≡◌, refl, arith, ap, if◌then◌else◌,
}
use bingsan.Tables.Commit.{same_name}

pub record Namespace : Type 0 where
  pub id : String
  pub name : List String
  pub properties : List (String × String)

-- What these handlers read and write of a table or of a view.
pub record Item : Type 0 where
  pub namespace_id : String
  pub name : String

pub record CatalogRows : Type 0 where
  pub namespaces : List Namespace
  pub tables : List Item
  pub views : List Item

-- The answers that are errors, each with its status below.
pub data CatalogError : Type 0 where
  invalid_body namespace_required namespace_not_found namespace_not_empty : CatalogError
  already_exists item_not_found not_found internal : CatalogError

abbrev pub status : CatalogError → ℕ
status invalid_body = 400
status namespace_required = 400
status namespace_not_found = 404
status namespace_not_empty = 400
status already_exists = 409
status item_not_found = 404
status not_found = 404
status internal = 500

-- `WHERE name = $1`
abbrev pub named : List String → Namespace → Bool
named name n = same_name n.name name

-- `strings.Join`
abbrev pub join : String → List String → String
join separator [] = ""
join separator (s ∷ []) = s
join separator (s ∷ t ∷ ss) = String.◌++◌ s (String.◌++◌ separator (join separator (t ∷ ss)))

pub same_name_iff : (xs ys : List String) → same_name xs ys ≡ true → xs ≡ ys
same_name_iff [] [] h = refl
same_name_iff [] (y ∷ ys) h = absurd (ground arith)
same_name_iff (x ∷ xs) [] h = absurd (ground arith)
same_name_iff (x ∷ xs) (y ∷ ys) h =
    let e = (eq_iff x y).0 (ground arith) in let f = same_name_iff xs ys (ground arith) in cc

pub same_name_refl : (xs : List String) → same_name xs xs ≡ true
same_name_refl [] = refl
same_name_refl (x ∷ xs) = let e = eq_refl x in let f = same_name_refl xs in ground arith
