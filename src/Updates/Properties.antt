-- ===== src/Updates/Properties.antt =====
-- internal/api/handlers/updates/properties.go
use bingsan.Prelude.{
  String, Bool, true, false, not, Option, none, some, List, [], ◌∷◌, ◌||◌, ◌&&◌, ◌==◌,
}
use bingsan.Prelude.Int.{pos, ltb_ℤ}
use bingsan.Go.Value.{Value, Fields, string, int, slice, object, as_object}
use bingsan.Go.Map.{set, delete}
use bingsan.Go.Slice.{append, any}
use bingsan.Updates.Types.{
  AssignUuid, UpgradeFormatVersion, SetLocation, SetProperties, RemoveProperties, AddEncryptionKey,
  RemoveEncryptionKey, Error, required, cannot_change_uuid, bad_format_version, cannot_downgrade,
  key_already_exists,
}
use bingsan.Updates.Exec.{Exec, ◌>>=◌, ◌>>◌, done, gets, or_fail, fail_if, modify}
use bingsan.Updates.Util.{
  get_string, get_int, get_map, get_slice, or_zero, ensure_map, ensure_slice, filter_at,
}

abbrev differs_from : Option String → String → Bool
differs_from none uuid = false
differs_from (some existing) uuid = not (existing == "") && not (existing == uuid)

unfoldable pub apply_assign_uuid : AssignUuid → Exec Error (Unit {0})
apply_assign_uuid u = do
  fail_if (u.uuid == "") (required "uuid")
  existing ← gets (λ m. get_string m "table-uuid")
  fail_if (differs_from existing u.uuid) cannot_change_uuid
  modify (set "table-uuid" (string u.uuid))

unfoldable pub apply_upgrade_format_version : UpgradeFormatVersion → Exec Error (Unit {0})
apply_upgrade_format_version u = do
  fail_if (ltb_ℤ u.format_version (pos 1) || ltb_ℤ (pos 3) u.format_version) bad_format_version
  current ← gets (λ m. or_zero (get_int m "format-version"))
  fail_if (ltb_ℤ u.format_version current) (cannot_downgrade current u.format_version)
  modify (set "format-version" (int u.format_version))

unfoldable pub apply_set_location : SetLocation → Exec Error (Unit {0})
apply_set_location u = do
  fail_if (u.location == "") (required "location")
  modify (set "location" (string u.location))

-- `for key, value := range u.Updates { props[key] = value }`
unfoldable pub set_all : List (String × String) → Fields → Fields
set_all [] props = props
set_all ((key, value) ∷ rest) props = set_all rest (set key (string value) props)

update_properties : List (String × String) → Exec Error (Unit {0})
update_properties [] = done
update_properties (u ∷ us) = do
  props ← ensure_map "properties"
  modify (set "properties" (object (set_all (u ∷ us) props)))

unfoldable pub apply_set_properties : SetProperties → Exec Error (Unit {0})
unfolding update_properties
apply_set_properties u = update_properties u.updates

-- `for _, key := range u.Removals { delete(props, key) }`
unfoldable pub delete_all : List String → Fields → Fields
delete_all [] props = props
delete_all (key ∷ keys) props = delete_all keys (delete key props)

delete_properties : List String → Option Fields → Exec Error (Unit {0})
delete_properties [] props = done
delete_properties (key ∷ keys) none = done
delete_properties (key ∷ keys) (some props) =
    modify (set "properties" (object (delete_all (key ∷ keys) props)))

unfoldable pub apply_remove_properties : RemoveProperties → Exec Error (Unit {0})
unfolding delete_properties
apply_remove_properties u = do
  props ← gets (λ m. get_map m "properties")
  delete_properties u.removals props

-- `id, ok := getString(item, "key-id"); ok && id == key_id`
abbrev is_some_text : String → Option String → Bool
is_some_text s none = false
is_some_text s (some t) = t == s

unfoldable pub has_key_id : String → Value → Bool
has_key_id key_id v = elim (as_object v) [
  | none ↦ false
  | some m ↦ is_some_text key_id (get_string m "key-id")
]

abbrev pub empty_to_none : Option String → Option String
empty_to_none none = none
empty_to_none (some s) = elim (s == "") [ true ↦ none | false ↦ some s ]

unfoldable pub apply_add_encryption_key : AddEncryptionKey → Exec Error (Unit {0})
apply_add_encryption_key u = do
  key ← or_fail u.encryption_key (required "encryption-key")
  key_id ← or_fail (empty_to_none (get_string key "key-id")) (required "key-id")
  keys ← ensure_slice "encryption-keys"
  fail_if (any (has_key_id key_id) keys) (key_already_exists key_id)
  modify (set "encryption-keys" (slice (append keys (object key))))

unfoldable pub apply_remove_encryption_key : RemoveEncryptionKey → Exec Error (Unit {0})
apply_remove_encryption_key u = do
  fail_if (u.key_id == "") (required "key-id")
  keys ← gets (λ m. get_slice m "encryption-keys")
  filter_at "encryption-keys" (λ v. not (has_key_id u.key_id v)) keys
