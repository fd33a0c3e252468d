-- ===== src/Updates/Processor/Correct.antt =====
-- internal/api/handlers/updates/processor.go: `Apply` compared with its specification.
use bingsan.Prelude.{
  ℕ, suc, String, ◌≡◌, refl, sym, ap, ◌∙◌, true, some, List, [], ◌∷◌, All, inl, inr, arith,
  Bool-cases, Option-cases, ◌==◌,
}
use bingsan.Go.Value.{Fields}
use bingsan.Updates.Exec.{Result, ok, err, Exec, ◌>>◌, fail, Result-cases}
use bingsan.Updates.Dispatch.{Kind, Update, Decoder, target_kind, kind_of, processing_order}
use bingsan.Updates.Processor.{
  RawUpdate, ApplyError, Groups, add_to, apply_in_order, check_known, is_known_action, apply_parsed,
  parse_update, parse_updates, apply, unmarshal,
}
use bingsan.Updates.Processor.Order.{
  Step, run, select, in_order, parse_all, add_all, apply_in_order-eq-run,
}
use bingsan.Updates.Processor.Known.{known_of_kind}

-- The action is the label under which the target was made.
abbrev pub IsTyped : Step → Type 0
IsTyped step = kind_of step.0 ≡ some (target_kind step.1)

abbrev AllKnown : Groups → Type 0
AllKnown [] = Unit
AllKnown ((a, us) ∷ parsed) = (is_known_action a processing_order ≡ true) × AllKnown parsed

AllKnown-add_to :
    (a : String) (u : Update) (parsed : Groups)
    → is_known_action a processing_order ≡ true
    → AllKnown parsed
    → AllKnown (add_to a u parsed)
unfolding add_to
AllKnown-add_to a u [] k h = (k, tt)
AllKnown-add_to a u ((b, us) ∷ parsed) k h = elim (Bool-cases (b == a)) [
  | inl same ↦ rw same h
  | inr other ↦ rw other (h.0, AllKnown-add_to a u parsed k h.1)
]

AllKnown-add_all :
    (steps : List Step) (parsed : Groups)
    → All IsTyped steps
    → AllKnown parsed
    → AllKnown (add_all steps parsed)
unfolding add_all
AllKnown-add_all [] parsed t h = h
AllKnown-add_all ((a, u) ∷ steps) parsed t h =
    AllKnown-add_all steps (add_to a u parsed) t.1
      (AllKnown-add_to a u parsed (known_of_kind a (target_kind u) t.0) h)

check_known-done :
    (parsed : Groups) (m : Fields) → AllKnown parsed → check_known parsed m ≡ (ok tt, m)
unfolding check_known
check_known-done [] m h = refl
check_known-done ((a, us) ∷ parsed) m h = rw h.0 (check_known-done parsed m h.1)

abbrev grouped : Result ApplyError (List Step) → Groups → Result ApplyError Groups
grouped (err e) parsed = err e
grouped (ok steps) parsed = ok (add_all steps parsed)

grouped-cons :
    (a : String) (u : Update) (r : Result ApplyError (List Step)) (parsed : Groups)
    → grouped r (add_to a u parsed)
      ≡ grouped (elim r [ err e ↦ err e | ok steps ↦ ok ((a, u) ∷ steps) ]) parsed
unfolding add_all
grouped-cons a u (ok steps) parsed = refl
grouped-cons a u (err e) parsed = refl

bind-done :
    {E : Type 0} (x f : Exec E (Unit {0})) (m : Fields)
    → ((m : Fields) → f m ≡ (ok tt, m))
    → (x >> f) m ≡ x m
bind-done {E} x f m h = go (x m).0 (x m).1
  where
    go :
        (r : Result E (Unit {0})) (m' : Fields)
        → ◌≡◌ {A = Result E (Unit {0}) × Fields}
            (elim r [ ok a ↦ f m' | err e ↦ (err e, m') ])
            (r, m')
    go (ok tt) m' = h m'
    go (err e) m' = refl

-- What `Apply` does with the parsed updates.
abbrev pub apply_steps : Result ApplyError (List Step) → Exec ApplyError (Unit {0})
apply_steps (err e) = fail e
apply_steps (ok steps) = run (in_order processing_order steps)

apply_grouped :
    (steps : List Step)
    → All IsTyped steps
    → (m : Fields)
    → apply_parsed (ok (add_all steps [])) m ≡ run (in_order processing_order steps) m
apply_grouped steps t m =
    bind-done (apply_in_order processing_order (add_all steps [])) (check_known (add_all steps []))
      m (λ m'. check_known-done (add_all steps []) m' (AllKnown-add_all steps [] t tt))
    ∙ apply_in_order-eq-run processing_order steps m

module _ {Raw : Type 0} (decoder : Decoder Raw) where
  unmarshal-target :
      (kind : Kind) (raw : Raw) (u : Update)
      → unmarshal decoder kind raw ≡ some u
      → target_kind u ≡ kind
  unfolding unmarshal
  unmarshal-target Kind.assign_uuid raw u h = ground arith
  unmarshal-target _ raw u h = ground arith

  parse_update-IsTyped :
      (i : ℕ) (r : RawUpdate Raw) (u : Update)
      → parse_update decoder i r ≡ ok u
      → IsTyped (r.action, u)
  unfolding parse_update
  parse_update-IsTyped i r u h = elim (Option-cases (kind_of r.action)) [
    | inl e ↦ ground arith
    | inr (kind, e) ↦ e ∙ ap some (sym (unmarshal-target kind r.raw u (ground arith)))
  ]

  pub parse_all-IsTyped :
      (i : ℕ) (rs : List (RawUpdate Raw)) (steps : List Step)
      → parse_all decoder i rs ≡ ok steps
      → All IsTyped steps
  unfolding parse_all
  parse_all-IsTyped i [] steps h = ground arith
  parse_all-IsTyped i (r ∷ rs) steps h = elim (Result-cases (parse_update decoder i r)) [
    | inr (e, p) ↦ ground arith
    | inl (u, p) ↦ elim (Result-cases (parse_all decoder (suc i) rs)) [
      | inr (e, q) ↦ ground arith
      | inl (rest, q) ↦
          let e : steps ≡ (r.action, u) ∷ rest = ground arith in
          rw e (parse_update-IsTyped i r u p, parse_all-IsTyped (suc i) rs rest q)
    ]
  ]

  parse_updates-eq-parse_all :
      (i : ℕ) (rs : List (RawUpdate Raw)) (parsed : Groups)
      → parse_updates decoder i rs parsed ≡ grouped (parse_all decoder i rs) parsed
  unfolding parse_updates parse_all add_all
  parse_updates-eq-parse_all i [] parsed = refl
  parse_updates-eq-parse_all i (r ∷ rs) parsed = elim (Result-cases (parse_update decoder i r)) [
    | inr (e, p) ↦ rw (p, parse_updates, parse_all)
    | inl (u, p) ↦
        rw (p, parse_updates, parse_all)
          (parse_updates-eq-parse_all (suc i) rs (add_to r.action u parsed)
            ∙ grouped-cons r.action u (parse_all decoder (suc i) rs) parsed)
  ]

  -- `Apply` parses every update, and changes nothing if one cannot be parsed. Then it runs the
  -- updates as one sequence, up to the first error: action by action in the processing order, and
  -- in the order of the request within an action.
  pub apply-eq-run :
      (rs : List (RawUpdate Raw)) (m : Fields)
      → apply decoder rs m ≡ apply_steps (parse_all decoder 0 rs) m
  unfolding apply parse_all in_order select run
  apply-eq-run [] m = refl
  apply-eq-run (r ∷ rs) m =
      rw (parse_updates-eq-parse_all 0 (r ∷ rs) [])
        (elim (Result-cases (parse_all decoder 0 (r ∷ rs))) [
          | inr (e, p) ↦ rw p
          | inl (steps, p) ↦ rw p (apply_grouped steps (parse_all-IsTyped 0 (r ∷ rs) steps p) m)
        ])
