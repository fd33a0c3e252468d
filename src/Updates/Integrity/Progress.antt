-- ===== src/Updates/Integrity/Progress.antt =====
-- The counters of the metadata and the uuid of the table under `Apply`.
use bingsan.Prelude.{
  String, ◌≡◌, ◌≢◌, refl, false, Option, none, some, List, inl, inr, arith, Bool-cases,
  Option-cases, eq_iff,
}
use bingsan.Prelude.Int.{ℤ, ◌≤ℤ◌, ltb_ℤ}
use bingsan.Go.Value.{Value, Fields, int, int64, as_int64}
use bingsan.Go.Map.{get, get-set}
use bingsan.Updates.Types.{AssignUuid, UpgradeFormatVersion, AddSchema, AddSpec, AddSnapshot}
use bingsan.Go.Slice.{any}
use bingsan.Updates.Integrity.Slices.{items_at}
use bingsan.Updates.Util.{
  get_slice, has_id, with_id, max_field_id, get_int, get_int64, get_string, or_zero, and_then,
}
use bingsan.Updates.Util.Laws.{write_laws, raised_value}
use bingsan.Updates.Properties.{apply_assign_uuid, apply_upgrade_format_version}
use bingsan.Updates.Schema.{apply_add_schema}
use bingsan.Updates.Partition.{apply_add_spec}
use bingsan.Updates.Snapshot.{apply_add_snapshot}
use bingsan.Updates.Dispatch.{Update, Decoder, target_kind, handle}
use bingsan.Updates.Frame.{touches, handle-frame}
use bingsan.Updates.Processor.{RawUpdate, apply}
use bingsan.Updates.Processor.Induction.{apply-keeps}

-- A counter of the metadata; a missing one is 0.
abbrev pub counter : Fields → String → ℤ
counter m key = or_zero (get_int m key)

abbrev AtMost : Option Value → Option Value → Type 0
AtMost old new = or_zero (and_then old as_int64) ≤ℤ or_zero (and_then new as_int64)

raised-le :
    (value : ℤ → Value) (n : Option ℤ) (old : Option Value)
    → ((k : ℤ) → as_int64 (value k) ≡ some k)
    → AtMost old (raised_value value n old)
unfolding raised_value
raised-le value none old h = omega arith
raised-le value (some n) old h = elim (Bool-cases (ltb_ℤ (or_zero (and_then old as_int64)) n)) [
  | inl more ↦ rw more (rw h (ground arith))
  | inr less ↦ rw less (omega arith)
]

version_grows :
    (u : UpgradeFormatVersion) (m : Fields)
    → counter m "format-version" ≤ℤ counter (apply_upgrade_format_version u m).1 "format-version"
unfolding apply_upgrade_format_version
version_grows u m = grind (arith, write_laws)

-- A value that was raised any number of times.
data Raised (value : ℤ → Value) (old : Option Value) : Option Value → Type 0 where
  same : {new : Option Value} → new ≡ old → Raised value old new
  more :
      {v new : Option Value} (n : Option ℤ)
      → Raised value old v
      → new ≡ raised_value value n v
      → Raised value old new

Raised-le :
    (value : ℤ → Value) (old new : Option Value)
    → ((k : ℤ) → as_int64 (value k) ≡ some k)
    → Raised value old new
    → AtMost old new
Raised-le value old new h (same e) = rw e (omega arith)
Raised-le value old new h (more {v = v} n r e) =
    let before : AtMost old v = Raised-le value old v h r in
    let after : AtMost v (raised_value value n v) = raised-le value n v h in rw e (omega arith)

column-Raised :
    (u : AddSchema) (m : Fields)
    → Raised int (get "last-column-id" m) (get "last-column-id" (apply_add_schema u m).1)
unfolding apply_add_schema
column-Raised u m = elim (Option-cases u.schema) [
  | inl e ↦ same (ground arith)
  | inr (given, e) ↦
      let (n, v) = with_id "schema-id" (items_at "schemas" m) given in
      elim (Bool-cases (any (has_id "schema-id" n) (items_at "schemas" m))) [
        | inl old ↦ same (grind (arith, write_laws))
        | inr fresh ↦
            more u.last_column_id (more (max_field_id (get_slice v "fields") "id") (same refl) refl)
              (grind (arith, write_laws))
      ]
]

partition-Raised :
    (u : AddSpec) (m : Fields)
    → Raised int (get "last-partition-id" m) (get "last-partition-id" (apply_add_spec u m).1)
unfolding apply_add_spec
partition-Raised u m = elim (Option-cases u.spec) [
  | inl e ↦ same (ground arith)
  | inr (given, e) ↦
      let (n, v) = with_id "spec-id" (items_at "partition-specs" m) given in
      elim (Bool-cases (any (has_id "spec-id" n) (items_at "partition-specs" m))) [
        | inl old ↦ same (grind (arith, write_laws))
        | inr fresh ↦
            more (max_field_id (get_slice v "fields") "field-id") (same refl)
              (grind (arith, write_laws))
      ]
]

sequence-Raised :
    (u : AddSnapshot) (m : Fields)
    → Raised int64
        (get "last-sequence-number" m)
        (get "last-sequence-number" (apply_add_snapshot u m).1)
unfolding apply_add_snapshot
sequence-Raised u m = elim (Option-cases u.snapshot) [
  | inl e ↦ same (ground arith)
  | inr (v, e) ↦ elim (Option-cases (get_int64 v "snapshot-id")) [
    | inl e' ↦ same (ground arith)
    | inr (n, e') ↦ elim (Option-cases (get_int64 v "timestamp-ms")) [
      | inl e'' ↦ same (ground arith)
      | inr (t, e'') ↦ elim (Bool-cases (any (has_id "snapshot-id" n) (items_at "snapshots" m))) [
        | inl old ↦ same (grind (arith, write_laws))
        | inr fresh ↦ more (get_int64 v "sequence-number") (same refl) (grind (arith, write_laws))
      ]
    ]
  ]
]

uuid_stays :
    (u : AssignUuid) (m : Fields) (s : String)
    → s ≢ ""
    → get_string m "table-uuid" ≡ some s
    → get_string (apply_assign_uuid u m).1 "table-uuid" ≡ some s
unfolding apply_assign_uuid
uuid_stays u m s ne h = grind (arith, get-set, eq_iff s "", eq_iff s u.uuid)

-- The counters of `m'` are not below those of `m`.
pub record Advances (m m' : Fields) : Type 0 where
  pub version : counter m "format-version" ≤ℤ counter m' "format-version"
  pub column : counter m "last-column-id" ≤ℤ counter m' "last-column-id"
  pub partition : counter m "last-partition-id" ≤ℤ counter m' "last-partition-id"
  pub sequence : counter m "last-sequence-number" ≤ℤ counter m' "last-sequence-number"

keep_counter :
    (key : String) (u : Update) (m : Fields)
    → touches (target_kind u) key ≡ false
    → counter m key ≤ℤ counter (handle u m).1 key
keep_counter key u m h = rw (handle-frame u m key h) (omega arith)

handle-Advances : (u : Update) (m : Fields) → Advances m (handle u m).1
unfolding handle
handle-Advances (Update.upgrade_format_version u) m = record {
  version = version_grows u m;
  column = keep_counter "last-column-id" (Update.upgrade_format_version u) m refl;
  partition = keep_counter "last-partition-id" (Update.upgrade_format_version u) m refl;
  sequence = keep_counter "last-sequence-number" (Update.upgrade_format_version u) m refl;
}
handle-Advances (Update.add_schema u) m = record {
  version = keep_counter "format-version" (Update.add_schema u) m refl;
  column = Raised-le int _ _ (λ k. refl) (column-Raised u m);
  partition = keep_counter "last-partition-id" (Update.add_schema u) m refl;
  sequence = keep_counter "last-sequence-number" (Update.add_schema u) m refl;
}
handle-Advances (Update.add_spec u) m = record {
  version = keep_counter "format-version" (Update.add_spec u) m refl;
  column = keep_counter "last-column-id" (Update.add_spec u) m refl;
  partition = Raised-le int _ _ (λ k. refl) (partition-Raised u m);
  sequence = keep_counter "last-sequence-number" (Update.add_spec u) m refl;
}
handle-Advances (Update.add_snapshot u) m = record {
  version = keep_counter "format-version" (Update.add_snapshot u) m refl;
  column = keep_counter "last-column-id" (Update.add_snapshot u) m refl;
  partition = keep_counter "last-partition-id" (Update.add_snapshot u) m refl;
  sequence = Raised-le int64 _ _ (λ k. refl) (sequence-Raised u m);
}
handle-Advances u m = record {
  version = keep_counter "format-version" u m refl;
  column = keep_counter "last-column-id" u m refl;
  partition = keep_counter "last-partition-id" u m refl;
  sequence = keep_counter "last-sequence-number" u m refl;
}

Advances-step : (m m' : Fields) (u : Update) → Advances m m' → Advances m (handle u m').1
Advances-step m m' u h =
    let next : Advances m' (handle u m').1 = handle-Advances u m' in
    record {
      version = omega (arith, h.version, next.version);
      column = omega (arith, h.column, next.column);
      partition = omega (arith, h.partition, next.partition);
      sequence = omega (arith, h.sequence, next.sequence);
    }

-- Whatever a commit asks for, and also where it fails half way, the format version, the last column
-- id, the last partition id and the last sequence number do not go down.
pub apply-Advances :
    {Raw : Type 0} (decoder : Decoder Raw) (updates : List (RawUpdate Raw)) (m : Fields)
    → Advances m (apply decoder updates m).1
apply-Advances decoder updates m =
    apply-keeps (Advances m) (λ u m'. Advances-step m m' u) decoder updates m (omega arith)

uuid_kept :
    (s : String)
    → s ≢ ""
    → (u : Update) (m : Fields) → get_string m "table-uuid" ≡ some s
    → get_string (handle u m).1 "table-uuid" ≡ some s
unfolding handle
uuid_kept s ne (Update.assign_uuid u) m h = uuid_stays u m s ne h
uuid_kept s ne u m h = rw (handle-frame u m "table-uuid" refl) h

-- A table's uuid that is set, and not empty, stays as it is whatever a commit asks for.
pub apply-table_uuid :
    {Raw : Type 0} (decoder : Decoder Raw) (updates : List (RawUpdate Raw)) (m : Fields)
    (s : String)
    → s ≢ ""
    → get_string m "table-uuid" ≡ some s
    → get_string (apply decoder updates m).1 "table-uuid" ≡ some s
apply-table_uuid decoder updates m s ne h =
    apply-keeps (λ m'. get_string m' "table-uuid" ≡ some s) (uuid_kept s ne) decoder updates m h
