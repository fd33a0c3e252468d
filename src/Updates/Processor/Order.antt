-- ===== src/Updates/Processor/Order.antt =====
-- `Apply` against a specification: parse everything, then run one sequence of updates.
use bingsan.Prelude.{
  ℕ, suc, String, ◌≡◌, refl, sym, ap, ◌∙◌, List, [], ◌∷◌, ◌++◌, map, inl, inr, arith, Bool-cases,
  ◌==◌, eq_iff, if◌then◌else◌,
}
use mathlib.Core.Path.{fun_ext}
use mathlib.Core.List.{append_assoc, append-nil}
use bingsan.Go.Value.{Fields}
use bingsan.Updates.Exec.{Result, ok, err, Exec, ◌>>=◌, ◌>>◌, done}
use bingsan.Updates.Dispatch.{Update, Decoder, apply_update}
use bingsan.Updates.Processor.{
  RawUpdate, ApplyError, Groups, add_to, group, wrap_error, apply_group, apply_in_order,
  parse_update,
}

-- An update with the action under which it came.
abbrev pub Step : Type 0
Step = String × Update

-- The updates run one after the other, up to the first error.
unfoldable pub run : List Step → Exec ApplyError (Unit {0})
run [] = done
run ((action, u) ∷ steps) = (λ m. wrap_error action (apply_update action u m)) >> run steps

-- The steps of one action, in the order of the request.
unfoldable pub select : String → List Step → List Step
select a [] = []
select a ((b, u) ∷ steps) = let rest = select a steps in if b == a then (b, u) ∷ rest else rest

unfoldable pub in_order : List String → List Step → List Step
in_order [] steps = []
in_order (a ∷ order) steps = select a steps ++ in_order order steps

module _ {Raw : Type 0} (decoder : Decoder Raw) where
  unfoldable pub parse_all : ℕ → List (RawUpdate Raw) → Result ApplyError (List Step)
  parse_all i [] = ok []
  parse_all i (r ∷ rs) =
      let rest = parse_all (suc i) rs in
      elim (parse_update decoder i r) [
        | err e ↦ err e
        | ok u ↦ elim rest [ err e ↦ err e | ok steps ↦ ok ((r.action, u) ∷ steps) ]
      ]

unfoldable pub add_all : List Step → Groups → Groups
add_all [] parsed = parsed
add_all ((a, u) ∷ steps) parsed = add_all steps (add_to a u parsed)

untag : List Step → List Update
untag = map (λ step. step.1)

tag : String → List Update → List Step
tag a = map (λ u. (a, u))

group-add_to :
    (a b : String) (u : Update) (parsed : Groups)
    → group a (add_to b u parsed) ≡ (if b == a then group a parsed ++ u ∷ [] else group a parsed)
unfolding group add_to
group-add_to a b u [] = ground arith
group-add_to a b u ((c, us) ∷ parsed) =
    ground (arith, eq_iff b a, eq_iff c a, eq_iff c b, group-add_to a b u parsed)

group-add_all :
    (a : String) (steps : List Step) (parsed : Groups)
    → group a (add_all steps parsed) ≡ group a parsed ++ untag (select a steps)
unfolding add_all select untag
group-add_all a [] parsed = sym (append-nil (group a parsed))
group-add_all a ((b, u) ∷ steps) parsed = elim (Bool-cases (b == a)) [
  | inl same ↦
      rw (same, group-add_all a steps (add_to b u parsed), group-add_to, same)
        (append_assoc (group a parsed) (u ∷ []) (untag (select a steps)))
  | inr other ↦ rw (other, group-add_all a steps (add_to b u parsed), group-add_to, other)
]

tag-untag : (a : String) (steps : List Step) → tag a (untag (select a steps)) ≡ select a steps
unfolding tag untag select
tag-untag a [] = refl
tag-untag a ((b, u) ∷ steps) = ground (arith, eq_iff b a, tag-untag a steps)

module _ {E A B : Type 0} where
  bind_ext :
      (x : Exec E A) {f g : A → Exec E B}
      → ((a : A) (m : Fields) → f a m ≡ g a m)
      → (m : Fields) → (x >>= f) m ≡ (x >>= g) m
  bind_ext x {f} {g} h m = go (x m).0 (x m).1
    where
      go :
          (r : Result E A) (m' : Fields)
          → ◌≡◌ {A = Result E B × Fields}
              (elim r [ ok a ↦ f a m' | err e ↦ (err e, m') ])
              (elim r [ ok a ↦ g a m' | err e ↦ (err e, m') ])
      go (ok a) m' = h a m'
      go (err e) m' = refl

  bind_ext₂ :
      (x y : Exec E A) {f g : A → Exec E B}
      → ((m : Fields) → x m ≡ y m)
      → ((a : A) (m : Fields) → f a m ≡ g a m)
      → (m : Fields) → (x >>= f) m ≡ (y >>= g) m
  bind_ext₂ x y {f} {g} hx h m = ap (λ (z : Exec E A). (z >>= f) m) (fun_ext hx) ∙ bind_ext y h m

module _ {E A B C : Type 0} where
  bind_assoc :
      (x : Exec E A) (f : A → Exec E B) (g : B → Exec E C) (m : Fields)
      → ((x >>= f) >>= g) m ≡ (x >>= λ a. f a >>= g) m
  bind_assoc x f g m = ground arith

abbrev one_step : String → Update → Exec ApplyError (Unit {0})
one_step action u m = wrap_error action (apply_update action u m)

apply_group-eq-run :
    (a : String) (us : List Update) (m : Fields) → apply_group a us m ≡ run (tag a us) m
unfolding apply_group run tag
apply_group-eq-run a [] m = refl
apply_group-eq-run a (u ∷ us) m =
    bind_ext (λ m'. wrap_error a (apply_update a u m')) (λ _. apply_group-eq-run a us) m

run-append : (xs ys : List Step) (m : Fields) → run (xs ++ ys) m ≡ (run xs >> run ys) m
unfolding run
run-append [] ys m = refl
run-append ((a, u) ∷ xs) ys m =
    bind_ext (one_step a u) (λ _. run-append xs ys) m
    ∙ sym (bind_assoc (one_step a u) (λ _. run xs) (λ _. run ys) m)

pub apply_in_order-eq-run :
    (order : List String) (steps : List Step) (m : Fields)
    → apply_in_order order (add_all steps []) m ≡ run (in_order order steps) m
unfolding apply_in_order in_order run group untag
apply_in_order-eq-run [] steps m = refl
apply_in_order-eq-run (a ∷ order) steps m = rw (group-add_all a steps []) (
    bind_ext₂ (apply_group a (untag (select a steps))) (run (select a steps))
      (λ m'.
        apply_group-eq-run a (untag (select a steps)) m' ∙ ap (λ xs. run xs m') (tag-untag a steps))
      (λ _. apply_in_order-eq-run order steps) m
    ∙ sym (run-append (select a steps) (in_order order steps) m))
