-- ===== src/Updates/Util/Removal.antt =====
-- internal/api/handlers/updates/util.go: the contract of `removeItemsByID`.
use bingsan.Prelude.{
  String, ◌≡◌, refl, Bool, true, false, List, [], ◌∷◌, inl, inr, arith, Bool-cases, Option-cases,
}
use bingsan.Prelude.Int.{ℤ, eqb_ℤ_iff}
use bingsan.Go.Value.{Value, Items}
use bingsan.Go.Slice.{any, filter, is_empty, any-filter, any-filter_none}
use bingsan.Updates.Exec.{ok}
use bingsan.Updates.Util.{has_id, item_id, keeps, mem_id, remove_items_by_id}

-- What a caller relies on: an id to remove is on no item, any other id is on as many as before, the
-- protected id is not one to remove, and a slice with items does not become empty.
pub record IsRemoval (items : Items) (ids : List ℤ) (key : String) (protected : ℤ) (left : Items)
    : Type 0 where
  pub gone : (n : ℤ) → mem_id n ids ≡ true → any (has_id key n) left ≡ false
  pub stay : (n : ℤ) → mem_id n ids ≡ false → any (has_id key n) left ≡ any (has_id key n) items
  pub spared : is_empty items ≡ false → mem_id protected ids ≡ false
  pub some_left : is_empty items ≡ false → is_empty left ≡ false

drops_of_has_id :
    (key : String) (n : ℤ) (ids : List ℤ) (v : Value)
    → mem_id n ids ≡ true
    → has_id key n v ≡ true
    → keeps key ids v ≡ false
unfolding has_id keeps
drops_of_has_id key n ids v hit h = elim (Option-cases (item_id key v)) [
  | inl e ↦ ground arith
  | inr (k, e) ↦ ground (arith, eqb_ℤ_iff k n)
]

stays_of_has_id :
    (key : String) (n : ℤ) (ids : List ℤ) (v : Value)
    → mem_id n ids ≡ false
    → has_id key n v ≡ true
    → keeps key ids v ≡ true
unfolding has_id keeps
stays_of_has_id key n ids v miss h = elim (Option-cases (item_id key v)) [
  | inl e ↦ ground arith
  | inr (k, e) ↦ ground (arith, eqb_ℤ_iff k n)
]

filtered-gone :
    (key : String) (n : ℤ) (ids : List ℤ) (items : Items)
    → mem_id n ids ≡ true
    → any (has_id key n) (filter (keeps key ids) items) ≡ false
filtered-gone key n ids items hit =
    any-filter_none (has_id key n) (keeps key ids) items (λ v. drops_of_has_id key n ids v hit)

filtered-stay :
    (key : String) (n : ℤ) (ids : List ℤ) (items : Items)
    → mem_id n ids ≡ false
    → any (has_id key n) (filter (keeps key ids) items) ≡ any (has_id key n) items
filtered-stay key n ids items miss =
    any-filter (has_id key n) (keeps key ids) items (λ v. stays_of_has_id key n ids v miss)

any-empty : (p : Value → Bool) (items : Items) → is_empty items ≡ true → any p items ≡ false
unfolding any is_empty
any-empty p items h = ground arith

removal :
    (items : Items) (ids : List ℤ) (key : String) (protected : ℤ)
    → mem_id protected ids ≡ false
    → is_empty (filter (keeps key ids) items) ≡ false
    → IsRemoval items ids key protected (filter (keeps key ids) items)
removal items ids key protected miss left = record {
  gone = λ n. filtered-gone key n ids items;
  stay = λ n. filtered-stay key n ids items;
  spared = λ _. miss;
  some_left = λ _. left;
}

-- Where `removeItemsByID` returns items without an error, they are the items without those that it
-- was asked to remove: no item has an id of the list, any other id is there if it was before, the
-- protected id is not in the list, and items are left; the last two if there were items.
pub remove_items_by_id-IsRemoval :
    (items : Items) (ids : List ℤ) (key : String) (protected : ℤ) (item_type : String)
    (left : Items)
    → remove_items_by_id items ids key protected item_type ≡ ok left
    → IsRemoval items ids key protected left
unfolding remove_items_by_id mem_id
remove_items_by_id-IsRemoval items [] key protected item_type left h =
    let same : items ≡ left = ground arith in
    rw (← same) record {
      gone = λ n hit. ground arith;
      stay = λ n _. refl;
      spared = λ _. refl;
      some_left = λ e. e;
    }
remove_items_by_id-IsRemoval items (k ∷ ids) key protected item_type left h =
    elim (Bool-cases (is_empty items)) [
      | inl empty ↦
          let same : items ≡ left = ground arith in
          rw (← same) record {
            gone = λ n _. any-empty (has_id key n) items empty;
            stay = λ n _. refl;
            spared = λ e. ground arith;
            some_left = λ e. e;
          }
      | inr full ↦
          let removed : filter (keeps key (k ∷ ids)) items ≡ left = ground arith in
          rw (← removed) (removal items (k ∷ ids) key protected (ground arith) (ground arith))
    ]
