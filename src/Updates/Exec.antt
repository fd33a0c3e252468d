-- ===== src/Updates/Exec.antt =====
-- A handler works on the processor's metadata and may return an error. What it wrote before the
-- error stays written, so the metadata comes back beside the error too.
use bingsan.Prelude.{◌≡◌, refl, ◌⊎◌, inl, inr, Bool, Option, none, some, if◌then◌else◌}
use bingsan.Go.Value.{Fields}

pub data Result (E A : Type 0) : Type 0 where
  ok : A → Result E A
  err : E → Result E A

abbrev pub Exec : Type 0 → Type 0 → Type 0
Exec E A = Fields → Result E A × Fields

module _ {E A : Type 0} where
  abbrev pub pure : A → Exec E A
  pure a m = (ok a, m)

  abbrev pub fail : E → Exec E A
  fail e m = (err e, m)

  abbrev pub gets : (Fields → A) → Exec E A
  gets f m = (ok (f m), m)

  abbrev pub or_fail : Option A → E → Exec E A
  or_fail none e m = (err e, m)
  or_fail (some a) e m = (ok a, m)

module _ {E : Type 0} where
  abbrev pub done : Exec E (Unit {0})
  done m = (ok tt, m)

  abbrev pub modify : (Fields → Fields) → Exec E (Unit {0})
  modify f m = (ok tt, f m)

  abbrev pub fail_if : Bool → E → Exec E (Unit {0})
  fail_if b e m = (if b then err e else ok tt, m)

infixl 5 ◌>>=◌ ◌>>◌
abbrev pub ◌>>=◌ : {E A B : Type 0} → Exec E A → (A → Exec E B) → Exec E B
◌>>=◌ x f m = let (r, m') = x m in elim r [ ok a ↦ f a m' | err e ↦ (err e, m') ]

abbrev pub ◌>>◌ : {E A B : Type 0} → Exec E A → Exec E B → Exec E B
x >> y = x >>= λ _. y

pub Result-cases :
    {E A : Type 0} (r : Result E A) → ((a : A) × (r ≡ ok a)) ⊎ ((e : E) × (r ≡ err e))
Result-cases (ok a) = inl (a, refl)
Result-cases (err e) = inr (e, refl)
