-- ===== src/Updates/Processor/Induction.antt =====
-- internal/api/handlers/updates/processor.go: from an invariant of the handlers to one of `Apply`.
use bingsan.Prelude.{
  String, ◌≡◌, ◌≢◌, ap, Option, none, some, List, [], ◌∷◌, ◌⊎◌, inl, inr, Bool-cases,
}
use mathlib.Core.Logic.{if_pos, if_neg}
use bingsan.Go.Value.{Fields}
use bingsan.Updates.Types.{Error, bad_assertion}
use bingsan.Updates.Exec.{Result, ok, err, Exec, ◌>>=◌, fail}
use bingsan.Updates.Dispatch.{
  Kind, Update, Decoder, Kind-discrete, target_kind, kind_of, handle, dispatch, dispatch_to,
  apply_update, dispatch_to, processing_order,
}
use bingsan.Updates.Processor.{
  RawUpdate, ApplyError, Groups, group, wrap_error, apply_group, apply_in_order, check_known,
  is_known_action, apply_parsed, parse_updates, apply,
}

pub dispatch-cases :
    (kind : Kind) (u : Update) (m : Fields)
    → ((dispatch kind u m ≡ handle u m) × (kind ≡ target_kind u))
      ⊎ ((dispatch kind u m ≡ (err bad_assertion, m)) × (kind ≢ target_kind u))
unfolding dispatch
dispatch-cases kind u m = elim (Kind-discrete kind (target_kind u)) [
  | yes e ↦ inl (ap (λ (x : Exec Error Unit). x m) (if_pos _ e (handle u) (fail bad_assertion)), e)
  | no ne ↦
      inr (ap (λ (x : Exec Error Unit). x m) (if_neg _ ne (handle u) (fail bad_assertion)), ne)
]

module _ {E A B : Type 0} (P : Fields → Type 0) where
  keeps-bind :
      (x : Exec E A) (f : A → Exec E B)
      → ((m : Fields) → P m → P (x m).1)
      → ((a : A) (m : Fields) → P m → P (f a m).1)
      → (m : Fields) → P m
      → P ((x >>= f) m).1
  keeps-bind x f hx hf m p = keeps_result (x m).0 (x m).1 (hx m p)
    where
      keeps_result :
          (r : Result E A) (m' : Fields)
          → P m'
          → P (let g : Result E B × Fields = elim r [ ok a ↦ f a m' | err e ↦ (err e, m') ] in g).1
      keeps_result (ok a) m' q = hf a m' q
      keeps_result (err e) m' q = q

module _ (P : Fields → Type 0) (step : (u : Update) (m : Fields) → P m → P (handle u m).1) where
  dispatch-keeps : (kind : Kind) (u : Update) (m : Fields) → P m → P (dispatch kind u m).1
  dispatch-keeps kind u m p = elim (dispatch-cases kind u m) [
    | inl e ↦ rw e.0 (step u m p)
    | inr e ↦ rw e.0 p
  ]

  apply_update-keeps :
      (action : String) (u : Update) (m : Fields) → P m → P (apply_update action u m).1
  unfolding apply_update
  apply_update-keeps action u m p = go (kind_of action)
    where
      go : (o : Option Kind) → P (dispatch_to o action u m).1
      go none = p
      go (some kind) = dispatch-keeps kind u m p

  wrap_error-keeps :
      (action : String) (r : Result Error (Unit {0}) × Fields) → P r.1 → P (wrap_error action r).1
  wrap_error-keeps action (ok a, m) p = p
  wrap_error-keeps action (err e, m) p = p

  apply_group-keeps :
      (action : String) (us : List Update) (m : Fields) → P m → P (apply_group action us m).1
  unfolding apply_group
  apply_group-keeps action [] m p = p
  apply_group-keeps action (u ∷ us) m p =
      keeps-bind P (λ m'. wrap_error action (apply_update action u m')) (λ _. apply_group action us)
        (λ m' q.
          wrap_error-keeps action (apply_update action u m') (apply_update-keeps action u m' q))
        (λ _. apply_group-keeps action us) m p

  apply_in_order-keeps :
      (order : List String) (parsed : Groups) (m : Fields)
      → P m
      → P (apply_in_order order parsed m).1
  unfolding apply_in_order
  apply_in_order-keeps [] parsed m p = p
  apply_in_order-keeps (action ∷ order) parsed m p =
      keeps-bind P (apply_group action (group action parsed)) (λ _. apply_in_order order parsed)
        (apply_group-keeps action (group action parsed)) (λ _. apply_in_order-keeps order parsed) m
        p

  check_known-keeps : (parsed : Groups) (m : Fields) → P m → P (check_known parsed m).1
  unfolding check_known
  check_known-keeps [] m p = p
  check_known-keeps ((action, us) ∷ parsed) m p =
      elim (Bool-cases (is_known_action action processing_order)) [
        | inl known ↦ rw known (check_known-keeps parsed m p)
        | inr unknown ↦ rw unknown p
      ]

  -- An invariant of every handler is one of `Apply`, which may fail half way.
  pub apply-keeps :
      {Raw : Type 0} (decoder : Decoder Raw) (updates : List (RawUpdate Raw)) (m : Fields)
      → P m
      → P (apply decoder updates m).1
  unfolding apply
  apply-keeps decoder [] m p = p
  apply-keeps decoder (r ∷ rs) m p = go (parse_updates decoder 0 (r ∷ rs) [])
    where
      go : (parsed : Result ApplyError Groups) → P (apply_parsed parsed m).1
      go (err e) = p
      go (ok parsed) =
          keeps-bind P (apply_in_order processing_order parsed) (λ _. check_known parsed)
            (apply_in_order-keeps processing_order parsed) (λ _. check_known-keeps parsed) m p
