-- ===== src/Views/Replaced.antt =====
-- internal/api/handlers/view.go: what ReplaceView leaves in the views.
use bingsan.Prelude.{
  Pointwise, empty, more, [], ◌∷◌, ◌==◌, eq_iff, false, Bool-cases, ℕ, suc, ◌≤◌, ◌≡◌, refl, subst,
  String, Option, none, some, List, ◌⊎◌, inl, inr, find, arith,
}
use bingsan.Go.Value.{Fields, json_trip_fields}
use bingsan.Updates.Util.{get_string}
use bingsan.Db.Lock.{LockConfig, Attempt, LockError, attempt_count}
use bingsan.Db.Lock.Atomic.{world, IsAtomic, with_lock-IsAtomic}
use bingsan.Tables.Commit.{Format, TxError, tx_code}
use bingsan.Views.{ViewRow, ViewWorld, is_view}
use bingsan.Views.Replace.{
  ViewCaptured, update_view, save_view, save_at, name_and_save_view, replace_row, replace_selected,
  replace_tx, replace_view,
}

-- The row with the id has this location and metadata; any other is as it was.
module _ (id location : String) (metadata : Fields) where
  abbrev IsRelocated : ViewRow → ViewRow → Type 0
  IsRelocated v u =
      ((v.id ≡ id) × (u ≡ record v { metadata_location = location; metadata = metadata }))
      ⊎ (((v.id == id) ≡ false) × (u ≡ v))

  update_view-IsRelocated :
      (views : List ViewRow) → Pointwise IsRelocated views (update_view id location metadata views)
  unfolding update_view
  update_view-IsRelocated [] = empty
  update_view-IsRelocated (v ∷ views) = elim (Bool-cases (v.id == id)) [
    | inl hit ↦ rw hit (more (inl ((eq_iff v.id id).0 hit, refl)) (update_view-IsRelocated views))
    | inr miss ↦ rw miss (more (inr (miss, refl)) (update_view-IsRelocated views))
  ]

module _ {E : Type 0} (ns : List String) (name : String) where
  -- The row of the view has a new location, and its metadata is written as it was read.
  abbrev pub Moves : ViewWorld E → ViewWorld E → Type 0
  Moves w after =
      (row : ViewRow) × (location : String) × (find (is_view ns name w.store.namespaces)
          w.store.views
        ≡ some row)
      × Pointwise (IsRelocated row.id location (json_trip_fields row.metadata)) w.store.views
          after.store.views
      × (after ≡ record w { store = record w.store { views = after.store.views } })

  abbrev pub Leaves : ViewWorld E → ViewWorld E → Type 0
  Leaves w after = (after ≡ w) ⊎ Moves w after

  module _ (format : Format) (c : ViewCaptured) (w : ViewWorld E) where
    save_view-Leaves :
        (down : Option E) (row : ViewRow) (location : String)
        → find (is_view ns name w.store.namespaces) w.store.views ≡ some row
        → Leaves w (save_view format down row (json_trip_fields row.metadata) location c w).1.1
    save_view-Leaves (some e) row location found = inl refl
    save_view-Leaves none row location found = inr (
      row,
      location,
      found,
      update_view-IsRelocated row.id location (json_trip_fields row.metadata) w.store.views,
      refl,
    )

    save_at-Leaves :
        (prefix : Option String) (location : String) (row : ViewRow)
        → find (is_view ns name w.store.namespaces) w.store.views ≡ some row
        → Leaves w (save_at format prefix location row (json_trip_fields row.metadata) c w).1.1
    save_at-Leaves none location row found = inl refl
    save_at-Leaves (some prefix) location row found = save_view-Leaves w.answers.update row _ found

    name_and_save_view-Leaves :
        (uuid location : Option String) (row : ViewRow)
        → find (is_view ns name w.store.namespaces) w.store.views ≡ some row
        → Leaves w
            (name_and_save_view format uuid location row (json_trip_fields row.metadata) c w).1.1
    name_and_save_view-Leaves none location row found = inl refl
    name_and_save_view-Leaves (some uuid) none row found = inl refl
    name_and_save_view-Leaves (some uuid) (some location) row found =
        save_at-Leaves (format.first_eight uuid) location row found

    replace_row-Leaves :
        (o : Option ViewRow)
        → find (is_view ns name w.store.namespaces) w.store.views ≡ o
        → Leaves w (replace_row format ns o c w).1.1
    replace_row-Leaves none found = inl refl
    replace_row-Leaves (some row) found =
        name_and_save_view-Leaves (get_string (json_trip_fields row.metadata) "view-uuid")
          (get_string (json_trip_fields row.metadata) "location") row found

    replace_selected-Leaves :
        (down : Option E) → Leaves w (replace_selected format down ns name c w).1.1
    replace_selected-Leaves (some e) = inl refl
    replace_selected-Leaves none =
        replace_row-Leaves (find (is_view ns name w.store.namespaces) w.store.views) refl

  module _ (format : Format) (pg_code : E → Option String) (cfg : LockConfig)
      (env : ℕ → Attempt (TxError E)) (others : ℕ → ViewWorld E → ViewWorld E) where
    -- At some moment of the call the views are as the others left them, or the one that is named has
    -- a new location since.
    abbrev pub LeavesAt : ViewWorld E → ViewWorld E → Type 0
    LeavesAt w after =
        (k : ℕ) × (k ≤ attempt_count cfg.max_retries) × Leaves (world others k w) after

    atomic-LeavesAt :
        (w : ViewWorld E) (r : Option (LockError (TxError E)) × (ViewCaptured × ViewWorld E))
        → IsAtomic
            (tx_code pg_code)
            cfg
            env
            others
            (replace_tx format ns name)
            (attempt_count cfg.max_retries)
            w
            r
        → LeavesAt w r.1.1
    unfolding replace_tx
    atomic-LeavesAt w (some e, (c, after)) (k, few, is) = (k, few, inl is)
    atomic-LeavesAt w (none, (c', after)) (k, few, (c, is)) =
        let before = world others (suc k) w in
        let leaves = replace_selected-Leaves format c before before.answers.select in
        (suc k, omega (arith, few), subst (λ p. Leaves before p.1.1) is leaves)

    -- ReplaceView applies no update: whatever the request asks for and whatever is answered, the
    -- database is as the other transactions left it at some moment of the call, but that the row of
    -- the view may have a new metadata location, with the metadata that the row had, as it is after
    -- JSON.
    pub replace_view-LeavesAt :
        {Request : Type 0} (body : Option Request) (w : ViewWorld E)
        → LeavesAt w (replace_view format pg_code cfg env others ns name body w).1
    unfolding replace_view
    replace_view-LeavesAt none w = (0, omega arith, inl refl)
    replace_view-LeavesAt (some req) w = atomic-LeavesAt w _ (
        with_lock-IsAtomic (tx_code pg_code) cfg env others (replace_tx format ns name)
          (record { response = none; update_err = none }) w)
