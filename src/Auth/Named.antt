-- ===== src/Auth/Named.antt =====
-- internal/api/middleware/authz.go: which namespace `extractNamespace` finds in a path.
use bingsan.Prelude.{
  ◌≢◌, String, ◌≡◌, refl, Bool, true, false, List, [], ◌∷◌, ◌⊎◌, inl, inr, ◌&&◌, ◌==◌, eq_iff,
  arith, Bool-cases,
}
use bingsan.Auth.Permissions.{find_namespace, is_namespace_part}

-- What follows a part `namespaces` of a path names a namespace, if it is none of these texts.
abbrev IsName : String → Type 0
IsName ns = (ns ≢ "") × (ns ≢ "tables") × (ns ≢ "views") × (ns ≢ "properties")

abbrev IsPair : String → String → Type 0
IsPair part ns = (part ≡ "namespaces") × IsName ns

-- The first name of a namespace among the parts of a path.
pub data IsNamed : List String → String → Type 0 where
  here : {part ns : String} {parts : List String} → IsPair part ns → IsNamed (part ∷ ns ∷ parts) ns
  later :
      {part ns name : String} {parts : List String}
      → ¬ IsPair part ns
      → IsNamed (ns ∷ parts) name
      → IsNamed (part ∷ ns ∷ parts) name

abbrev pair_test : String → String → Bool
pair_test part ns = part == "namespaces" && is_namespace_part ns

hit-IsPair : (part ns : String) → pair_test part ns ≡ true → IsPair part ns
hit-IsPair part ns h = (
  (eq_iff part "namespaces").0 (ground arith),
  (
    λ e. (let k = (eq_iff ns "").1 e in absurd (ground arith)),
    λ e. (let k = (eq_iff ns "tables").1 e in absurd (ground arith)),
    λ e. (let k = (eq_iff ns "views").1 e in absurd (ground arith)),
    λ e. (let k = (eq_iff ns "properties").1 e in absurd (ground arith)),
  ),
)

pub apart : (a b : String) → a ≢ b → (a == b) ≡ false
apart a b n = elim (Bool-cases (a == b)) [ inl h ↦ absurd (n ((eq_iff a b).0 h)) | inr h ↦ h ]

IsPair-hit : (part ns : String) → IsPair part ns → pair_test part ns ≡ true
IsPair-hit part ns (e, (n, t, v, p)) =
    let h = (eq_iff part "namespaces").1 e in
    let a = apart ns "" n in
    let b = apart ns "tables" t in
    let c = apart ns "views" v in let d = apart ns "properties" p in ground arith

IsNamed-find :
    (parts : List String) {name : String} → IsNamed parts name → find_namespace parts ≡ name
unfolding find_namespace
IsNamed-find [] m = elim m [ ]
IsNamed-find (part ∷ []) m = elim m [ ]
IsNamed-find (part ∷ ns ∷ parts) (here p) = let h = IsPair-hit part ns p in ground arith
IsNamed-find (part ∷ ns ∷ parts) (later n m) = elim (Bool-cases (pair_test part ns)) [
  | inl h ↦ absurd (n (hit-IsPair part ns h))
  | inr h ↦ let rest = IsNamed-find (ns ∷ parts) m in ground arith
]

pub IsNamed-IsName : {parts : List String} {name : String} → IsNamed parts name → IsName name
IsNamed-IsName (here p) = p.1
IsNamed-IsName (later n m) = IsNamed-IsName m

not_later :
    {part ns name : String} {parts : List String}
    → ¬ IsPair part ns
    → ¬ ((name : String) × IsNamed (ns ∷ parts) name)
    → ¬ IsNamed (part ∷ ns ∷ parts) name
not_later n none_named (here p) = n p
not_later n none_named (later _ m) = none_named (_, m)

pub find-IsNamed :
    (parts : List String)
    → IsNamed parts (find_namespace parts)
      ⊎ ((find_namespace parts ≡ "") × ¬ ((name : String) × IsNamed parts name))
unfolding find_namespace
find-IsNamed [] = inr (refl, λ (name, m). elim m [ ])
find-IsNamed (part ∷ []) = inr (refl, λ (name, m). elim m [ ])
find-IsNamed (part ∷ ns ∷ parts) = elim (Bool-cases (pair_test part ns)) [
  | inl h ↦ rw h (inl (here (hit-IsPair part ns h)))
  | inr h ↦ rw h (elim (find-IsNamed (ns ∷ parts)) [
    | inl m ↦ inl (later (λ p. let e = IsPair-hit part ns p in absurd (ground arith)) m)
    | inr (e, none_named) ↦ inr (
      e,
      λ (name, m).
          not_later (λ p. let e = IsPair-hit part ns p in absurd (ground arith)) none_named m,
    )
  ])
]
