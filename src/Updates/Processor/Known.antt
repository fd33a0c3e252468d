-- ===== src/Updates/Processor/Known.antt =====
-- internal/api/handlers/updates/processor.go: what `parseUpdate` accepts, `processingOrder` lists.
use bingsan.Prelude.{
  String, ◌≡◌, refl, true, Option, some, inl, inr, Bool-cases, ◌==◌, eq_iff, if◌then◌else◌,
}
use bingsan.Updates.Dispatch.{Kind, kind_of, processing_order}
use bingsan.Updates.Processor.{is_known_action}

-- One case of the switch.
case_known :
    (a label : String) (kind found : Kind) (rest : Option Kind)
    → is_known_action label processing_order ≡ true
    → (rest ≡ some found → is_known_action a processing_order ≡ true)
    → (if a == label then some kind else rest) ≡ some found
    → is_known_action a processing_order ≡ true
case_known a label kind found rest known later h = elim (Bool-cases (a == label)) [
  | inl same ↦ rw ((eq_iff a label).0 same) known
  | inr other ↦ later (rw other at h)
]

pub known_of_kind :
    (a : String) (found : Kind) → kind_of a ≡ some found → is_known_action a processing_order ≡ true
unfolding kind_of is_known_action
known_of_kind a found =
    (case_known a "assign-uuid" Kind.assign_uuid found _ refl (
      case_known a "upgrade-format-version" Kind.upgrade_format_version found _ refl (
        case_known a "set-location" Kind.set_location found _ refl (
          case_known a "set-properties" Kind.set_properties found _ refl (
            case_known a "remove-properties" Kind.remove_properties found _ refl (
              case_known a "add-schema" Kind.add_schema found _ refl (
                case_known a "set-current-schema" Kind.set_current_schema found _ refl (
                  case_known a "remove-schemas" Kind.remove_schemas found _ refl (
                    case_known a "add-spec" Kind.add_spec found _ refl (
                      case_known a "set-default-spec" Kind.set_default_spec found _ refl (
                        case_known a "remove-partition-specs" Kind.remove_partition_specs found _
                          refl
                          (case_known a "add-sort-order" Kind.add_sort_order found _ refl (
                            case_known a "set-default-sort-order" Kind.set_default_sort_order found
                              _ refl
                              (case_known a "add-snapshot" Kind.add_snapshot found _ refl (
                                case_known a "set-snapshot-ref" Kind.set_snapshot_ref found _ refl (
                                  case_known a "remove-snapshots" Kind.remove_snapshots found _ refl
                                    (case_known a "remove-snapshot-ref" Kind.remove_snapshot_ref
                                      found _ refl
                                      (case_known a "set-statistics" Kind.set_statistics found _
                                        refl
                                        (case_known a "remove-statistics" Kind.remove_statistics
                                          found _ refl
                                          (case_known a "set-partition-statistics"
                                            Kind.set_partition_statistics found _ refl
                                            (case_known a "remove-partition-statistics"
                                              Kind.remove_partition_statistics found _ refl
                                              (case_known a "add-encryption-key"
                                                Kind.add_encryption_key found _ refl
                                                (case_known a "remove-encryption-key"
                                                  Kind.remove_encryption_key found _ refl
                                                  (λ h. cc))))))))))))))))))))))))
