-- ===== src/Updates/Processor/Safety.antt =====
-- internal/api/handlers/updates/processor.go: which errors `Apply` may return.
use bingsan.Prelude.{
  ℕ, suc, String, ◌≡◌, refl, ap, sym, subst, List, [], ◌∷◌, ◌++◌, All, inl, inr, arith, Bool-cases,
  ◌==◌,
}
use bingsan.Go.Value.{Fields}
use bingsan.Updates.Types.{Error, bad_assertion, unhandled}
use mathlib.Core.Logic.{if_pos}
use bingsan.Updates.Exec.{fail, Result, ok, err, Exec, ◌>>◌, Result-cases}
use bingsan.Updates.Properties.{
  apply_assign_uuid, apply_upgrade_format_version, apply_set_location, apply_set_properties,
  apply_remove_properties, apply_add_encryption_key, apply_remove_encryption_key,
}
use bingsan.Updates.Schema.{apply_add_schema, apply_set_current_schema, apply_remove_schemas}
use bingsan.Updates.Partition.{apply_add_spec, apply_set_default_spec, apply_remove_partition_specs}
use bingsan.Updates.SortOrder.{apply_add_sort_order, apply_set_default_sort_order}
use bingsan.Updates.Snapshot.{
  apply_add_snapshot, apply_set_snapshot_ref, apply_remove_snapshots, apply_remove_snapshot_ref,
}
use bingsan.Updates.Statistics.{
  apply_set_statistics, apply_remove_statistics, apply_set_partition_statistics,
  apply_remove_partition_statistics,
}
use bingsan.Updates.Util.{remove_items_by_id}
use bingsan.Updates.Dispatch.{Update, Decoder, handle, dispatch, apply_update, processing_order}
use bingsan.Updates.Processor.{
  RawUpdate, ApplyError, update_error, unknown_action, failed_to_parse, unknown_update_action,
  wrap_error, parse_update, apply,
}
use bingsan.Updates.Processor.Order.{Step, run, select, in_order, parse_all}
use bingsan.Updates.Processor.Correct.{IsTyped, parse_all-IsTyped, apply-eq-run}

-- No failed type assertion, and no missing case of the switch.
abbrev pub IsHandlerError : Error → Type 0
IsHandlerError bad_assertion = ⊥
IsHandlerError (unhandled _) = ⊥
IsHandlerError _ = Unit

abbrev IsExpected : Result Error (Unit {0}) → Type 0
IsExpected (ok _) = Unit
IsExpected (err e) = IsHandlerError e

handle-IsExpected : (u : Update) (m : Fields) → IsExpected (handle u m).0
unfolding handle apply_assign_uuid apply_upgrade_format_version apply_set_location
    apply_set_properties apply_remove_properties apply_add_schema apply_set_current_schema
    apply_remove_schemas apply_add_spec apply_set_default_spec apply_remove_partition_specs
    apply_add_sort_order apply_set_default_sort_order apply_add_snapshot apply_set_snapshot_ref
    apply_remove_snapshots apply_remove_snapshot_ref apply_set_statistics apply_remove_statistics
    apply_set_partition_statistics apply_remove_partition_statistics apply_add_encryption_key
    apply_remove_encryption_key remove_items_by_id
handle-IsExpected (Update.assign_uuid u) m = ground arith
handle-IsExpected _ m = ground arith

-- An update runs the handler of its own type.
pub apply_update-typed :
    (a : String) (u : Update) (m : Fields) → IsTyped (a, u) → apply_update a u m ≡ handle u m
unfolding apply_update dispatch
apply_update-typed a u m h =
    rw h (ap (λ (x : Exec Error Unit). x m) (if_pos _ refl (handle u) (fail bad_assertion)))

-- The errors that `Apply` may return: of the parser, or of a handler that ran.
abbrev pub IsApplyError : ApplyError → Type 0
IsApplyError (update_error _ e) = IsHandlerError e
IsApplyError (unknown_update_action _) = ⊥
IsApplyError (unknown_action _ _) = Unit
IsApplyError (failed_to_parse _ _) = Unit

abbrev pub IsOutcome : Result ApplyError (Unit {0}) → Type 0
IsOutcome (ok _) = Unit
IsOutcome (err e) = IsApplyError e

All-append : (P : Step → Type 0) (xs ys : List Step) → All P xs → All P ys → All P (xs ++ ys)
All-append P [] ys hx hy = hy
All-append P (x ∷ xs) ys hx hy = (hx.0, All-append P xs ys hx.1 hy)

All-select :
    (P : Step → Type 0) (a : String) (steps : List Step) → All P steps → All P (select a steps)
unfolding select
All-select P a [] h = h
All-select P a ((b, u) ∷ steps) h = elim (Bool-cases (b == a)) [
  | inl same ↦ rw same (h.0, All-select P a steps h.1)
  | inr other ↦ rw other (All-select P a steps h.1)
]

All-in_order :
    (P : Step → Type 0) (order : List String) (steps : List Step)
    → All P steps
    → All P (in_order order steps)
unfolding in_order
All-in_order P [] steps h = tt
All-in_order P (a ∷ order) steps h =
    All-append P (select a steps) (in_order order steps) (All-select P a steps h)
      (All-in_order P order steps h)

run-IsOutcome : (steps : List Step) (m : Fields) → All IsTyped steps → IsOutcome (run steps m).0
unfolding run
run-IsOutcome [] m t = tt
run-IsOutcome ((a, u) ∷ steps) m t =
    after (apply_update a u m).0 (apply_update a u m).1
      (subst (λ r. IsExpected r.0) (sym (apply_update-typed a u m t.0)) (handle-IsExpected u m))
      (λ m'. run-IsOutcome steps m' t.1)
  where
    after :
        (r : Result Error (Unit {0})) (m' : Fields)
        → IsExpected r
        → ((m' : Fields) → IsOutcome (run steps m').0)
        → IsOutcome (((λ _. wrap_error a (r, m')) >> run steps) m).0
    after (ok _) m' h rest = rest m'
    after (err e) m' h rest = h

module _ {Raw : Type 0} (decoder : Decoder Raw) where
  parse_update-IsApplyError :
      (i : ℕ) (r : RawUpdate Raw) (e : ApplyError)
      → parse_update decoder i r ≡ err e
      → IsApplyError e
  unfolding parse_update
  parse_update-IsApplyError i r (update_error a e) h = absurd (ground arith)
  parse_update-IsApplyError i r (unknown_update_action a) h = absurd (ground arith)
  parse_update-IsApplyError i r (unknown_action j a) h = tt
  parse_update-IsApplyError i r (failed_to_parse j a) h = tt

  parse_all-IsApplyError :
      (i : ℕ) (rs : List (RawUpdate Raw)) (e : ApplyError)
      → parse_all decoder i rs ≡ err e
      → IsApplyError e
  unfolding parse_all
  parse_all-IsApplyError i [] e h = ground arith
  parse_all-IsApplyError i (r ∷ rs) e h = elim (Result-cases (parse_update decoder i r)) [
    | inr (e', p) ↦ parse_update-IsApplyError i r e (ground arith)
    | inl (u, p) ↦ elim (Result-cases (parse_all decoder (suc i) rs)) [
      | inl (steps, q) ↦ absurd (ground arith)
      | inr (e', q) ↦ parse_all-IsApplyError (suc i) rs e (ground arith)
    ]
  ]

  -- `Apply` never fails by a type assertion, by a case that is missing in its switch, or by the
  -- check for unknown actions that follows the loop: an unknown action is refused while parsing.
  pub apply-IsOutcome : (rs : List (RawUpdate Raw)) (m : Fields) → IsOutcome (apply decoder rs m).0
  apply-IsOutcome rs m =
      rw (apply-eq-run decoder rs m) (elim (Result-cases (parse_all decoder 0 rs)) [
        | inr (e, p) ↦ rw p (parse_all-IsApplyError 0 rs e p)
        | inl (steps, p) ↦ rw p (
            run-IsOutcome (in_order processing_order steps) m (
              All-in_order IsTyped processing_order steps (parse_all-IsTyped decoder 0 rs steps p)))
      ])
