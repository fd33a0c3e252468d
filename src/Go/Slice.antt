-- ===== src/Go/Slice.antt =====
-- `[]any`: append, the loops that search it, and `filterSlice`.
use bingsan.Prelude.{
  ℕ, suc, ◌+◌, ◌≤◌, ◌≡◌, refl, Bool, true, false, ◌||◌, Option, none, some, arith, if◌then◌else◌,
}
use bingsan.Go.Value.{Value, Items, nil, cons}

unfoldable pub append : Items → Value → Items
append nil v = cons v nil
append (cons w items) v = cons w (append items v)

-- A loop that breaks at the first item which passes the test.
unfoldable pub any : (Value → Bool) → Items → Bool
any p nil = false
any p (cons v items) = p v || any p items

unfoldable pub filter : (Value → Bool) → Items → Items
filter p nil = nil
filter p (cons v items) = let rest = filter p items in if p v then cons v rest else rest

unfoldable pub is_empty : Items → Bool
is_empty nil = true
is_empty (cons v items) = false

-- `items[len(items)-1]`
unfoldable pub last : Items → Option Value
last nil = none
last (cons v nil) = some v
last (cons v (cons w items)) = last (cons w items)

-- How many items pass a test.
unfoldable pub count : (Value → Bool) → Items → ℕ
count p nil = 0
count p (cons v items) = if p v then suc (count p items) else count p items

module _ (p : Value → Bool) where
  pub any-append : (items : Items) (v : Value) → any p (append items v) ≡ (any p items || p v)
  unfolding any append
  any-append nil v = ground arith
  any-append (cons w items) v = ground (arith, any-append items v)

  pub count-append :
      (items : Items) (v : Value)
      → count p (append items v) ≡ count p items + (if p v then 1 else 0)
  unfolding count append
  count-append nil v = ground arith
  count-append (cons w items) v = ground (arith, count-append items v)

  pub count-filter-le :
      (q : Value → Bool) (items : Items) → count p (filter q items) ≤ count p items
  unfolding count filter
  count-filter-le q nil = omega arith
  count-filter-le q (cons v items) = ground (arith, count-filter-le q items)

  pub any-filter :
      (q : Value → Bool) (items : Items)
      → ((v : Value) → p v ≡ true → q v ≡ true)
      → any p (filter q items) ≡ any p items
  unfolding any filter
  any-filter q nil h = refl
  any-filter q (cons v items) h = ground (arith, any-filter q items h, h v)

  pub any-filter_none :
      (q : Value → Bool) (items : Items)
      → ((v : Value) → p v ≡ true → q v ≡ false)
      → any p (filter q items) ≡ false
  unfolding any filter
  any-filter_none q nil h = refl
  any-filter_none q (cons v items) h = ground (arith, any-filter_none q items h, h v)

  pub count-zero : (items : Items) → any p items ≡ false → count p items ≡ 0
  unfolding any count
  count-zero nil h = refl
  count-zero (cons v items) h = ground (arith, count-zero items)

  pub any_of_last :
      (items : Items) (v : Value) → last items ≡ some v → p v ≡ true → any p items ≡ true
  unfolding any last
  any_of_last nil v h e = ground arith
  any_of_last (cons w nil) v h e = ground arith
  any_of_last (cons w (cons x items)) v h e = ground (arith, any_of_last (cons x items) v h e)
