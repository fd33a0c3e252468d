-- ===== src/Updates/Processor.antt =====
-- internal/api/handlers/updates/processor.go: `parseUpdates`, and the loop of `Apply`.
pub mod Induction
pub mod Order
pub mod Known
pub mod Correct
pub mod Safety
use bingsan.Prelude.{
  ℕ, suc, String, Bool, true, false, not, Option, none, some, List, [], ◌∷◌, ◌++◌, ◌||◌, ◌==◌,
  if◌then◌else◌,
}
use bingsan.Go.Value.{Fields}
use bingsan.Updates.Types.{Error}
use bingsan.Updates.Exec.{Result, ok, err, Exec, ◌>>=◌, ◌>>◌, done, fail}
use bingsan.Updates.Util.{deep_copy_map}
use bingsan.Updates.Dispatch.{Kind, Update, Decoder, kind_of, apply_update, processing_order}

pub record RawUpdate (Raw : Type 0) : Type 0 where
  pub action : String
  pub raw : Raw

-- The errors of `Apply`: those of `parseUpdates` with the index of the update, an `UpdateError`
-- with the message of the handler, and the check after the loop.
pub data ApplyError : Type 0 where
  unknown_action : ℕ → String → ApplyError
  failed_to_parse : ℕ → String → ApplyError
  update_error : String → Error → ApplyError
  unknown_update_action : String → ApplyError

-- What grouping by action makes of the updates: `map[string][]any`, in the order of first use.
abbrev pub Groups : Type 0
Groups = List (String × List Update)

unfoldable pub add_to : String → Update → Groups → Groups
add_to action u [] = (action, u ∷ []) ∷ []
add_to action u ((a, us) ∷ groups) =
    if a == action then (a, us ++ u ∷ []) ∷ groups else (a, us) ∷ add_to action u groups

-- `parsed[action]`, with nothing for an action that is not there
unfoldable pub group : String → Groups → List Update
group action [] = []
group action ((a, us) ∷ groups) = if a == action then us else group action groups

abbrev map_option : {A B : Type 0} → (A → B) → Option A → Option B
map_option f none = none
map_option f (some a) = some (f a)

module _ {Raw : Type 0} (decoder : Decoder Raw) where
  -- `target = &T{}` and json.Unmarshal into it
  unfoldable pub unmarshal : Kind → Raw → Option Update
  unmarshal Kind.assign_uuid raw = map_option Update.assign_uuid (decoder.decode_assign_uuid raw)
  unmarshal Kind.upgrade_format_version raw =
      map_option Update.upgrade_format_version (decoder.decode_upgrade_format_version raw)
  unmarshal Kind.set_location raw = map_option Update.set_location (decoder.decode_set_location raw)
  unmarshal Kind.set_properties raw =
      map_option Update.set_properties (decoder.decode_set_properties raw)
  unmarshal Kind.remove_properties raw =
      map_option Update.remove_properties (decoder.decode_remove_properties raw)
  unmarshal Kind.add_schema raw = map_option Update.add_schema (decoder.decode_add_schema raw)
  unmarshal Kind.set_current_schema raw =
      map_option Update.set_current_schema (decoder.decode_set_current_schema raw)
  unmarshal Kind.remove_schemas raw =
      map_option Update.remove_schemas (decoder.decode_remove_schemas raw)
  unmarshal Kind.add_spec raw = map_option Update.add_spec (decoder.decode_add_spec raw)
  unmarshal Kind.set_default_spec raw =
      map_option Update.set_default_spec (decoder.decode_set_default_spec raw)
  unmarshal Kind.remove_partition_specs raw =
      map_option Update.remove_partition_specs (decoder.decode_remove_partition_specs raw)
  unmarshal Kind.add_sort_order raw =
      map_option Update.add_sort_order (decoder.decode_add_sort_order raw)
  unmarshal Kind.set_default_sort_order raw =
      map_option Update.set_default_sort_order (decoder.decode_set_default_sort_order raw)
  unmarshal Kind.add_snapshot raw = map_option Update.add_snapshot (decoder.decode_add_snapshot raw)
  unmarshal Kind.set_snapshot_ref raw =
      map_option Update.set_snapshot_ref (decoder.decode_set_snapshot_ref raw)
  unmarshal Kind.remove_snapshots raw =
      map_option Update.remove_snapshots (decoder.decode_remove_snapshots raw)
  unmarshal Kind.remove_snapshot_ref raw =
      map_option Update.remove_snapshot_ref (decoder.decode_remove_snapshot_ref raw)
  unmarshal Kind.set_statistics raw =
      map_option Update.set_statistics (decoder.decode_set_statistics raw)
  unmarshal Kind.remove_statistics raw =
      map_option Update.remove_statistics (decoder.decode_remove_statistics raw)
  unmarshal Kind.set_partition_statistics raw =
      map_option Update.set_partition_statistics (decoder.decode_set_partition_statistics raw)
  unmarshal Kind.remove_partition_statistics raw =
      map_option Update.remove_partition_statistics (decoder.decode_remove_partition_statistics raw)
  unmarshal Kind.add_encryption_key raw =
      map_option Update.add_encryption_key (decoder.decode_add_encryption_key raw)
  unmarshal Kind.remove_encryption_key raw =
      map_option Update.remove_encryption_key (decoder.decode_remove_encryption_key raw)

  abbrev or_parse_error : ℕ → String → Option Update → Result ApplyError Update
  or_parse_error i action none = err (failed_to_parse i action)
  or_parse_error i action (some u) = ok u

  abbrev parse_kind : ℕ → RawUpdate Raw → Option Kind → Result ApplyError Update
  parse_kind i r none = err (unknown_action i r.action)
  parse_kind i r (some kind) = or_parse_error i r.action (unmarshal kind r.raw)

  unfoldable pub parse_update : ℕ → RawUpdate Raw → Result ApplyError Update
  parse_update i r = parse_kind i r (kind_of r.action)

  -- The loop of `parseUpdates` from the update with index `i`.
  unfoldable pub parse_updates : ℕ → List (RawUpdate Raw) → Groups → Result ApplyError Groups
  parse_updates i [] parsed = ok parsed
  parse_updates i (r ∷ rs) parsed = elim (parse_update i r) [
    | err e ↦ err e
    | ok u ↦ parse_updates (suc i) rs (add_to r.action u parsed)
  ]

-- One handler's error becomes an `UpdateError`.
abbrev pub wrap_error :
    String → Result Error (Unit {0}) × Fields → Result ApplyError (Unit {0}) × Fields
wrap_error action (ok a, m) = (ok a, m)
wrap_error action (err e, m) = (err (update_error action e), m)

unfoldable pub apply_group : String → List Update → Exec ApplyError (Unit {0})
apply_group action [] = done
apply_group action (u ∷ us) =
    (λ m. wrap_error action (apply_update action u m)) >> apply_group action us

unfoldable pub apply_in_order : List String → Groups → Exec ApplyError (Unit {0})
apply_in_order [] parsed = done
apply_in_order (action ∷ order) parsed =
    apply_group action (group action parsed) >> apply_in_order order parsed

unfoldable pub is_known_action : String → List String → Bool
is_known_action action [] = false
is_known_action action (a ∷ order) = a == action || is_known_action action order

-- The check for unknown actions after the loop.
unfoldable pub check_known : Groups → Exec ApplyError (Unit {0})
check_known [] m = (ok tt, m)
check_known ((action, us) ∷ parsed) m =
    let rest = check_known parsed m in
    if is_known_action action processing_order
    then rest
    else (err (unknown_update_action action), m)

abbrev pub apply_parsed : Result ApplyError Groups → Exec ApplyError (Unit {0})
apply_parsed (err e) = fail e
apply_parsed (ok parsed) = apply_in_order processing_order parsed >> check_known parsed

module _ {Raw : Type 0} (decoder : Decoder Raw) where
  -- `Processor.Apply`
  unfoldable pub apply : List (RawUpdate Raw) → Exec ApplyError (Unit {0})
  apply [] = done
  apply (r ∷ rs) = apply_parsed (parse_updates decoder 0 (r ∷ rs) [])

  -- `NewProcessor(metadata)`, `Apply` and `Result`, as a commit calls them: the result is read only
  -- if there was no error.
  unfoldable pub process : Fields → List (RawUpdate Raw) → Result ApplyError Fields
  process metadata updates = elim (apply updates (deep_copy_map metadata)).0 [
    | ok _ ↦ ok (apply updates (deep_copy_map metadata)).1
    | err e ↦ err e
  ]
