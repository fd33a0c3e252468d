-- ===== src/Events/Registry.antt =====
-- The map of subscribers in internal/events/broker.go: how often a channel stands in it after each
-- change.
use bingsan.Prelude.{
  ℕ, ◌+◌, ◌≤◌, ◌≡◌, refl, String, true, not, Option, none, some, List, [], ◌∷◌, ◌++◌, inl, inr,
  ◌&&◌, ◌==◌, eq_iff, arith, ltb, eqb, some_of, keep, Bool-cases, if◌then◌else◌,
}
use bingsan.Events.Broker.{
  Subscribers, lookup, add, remove, delete, is_empty, or_empty, clean_up, channels_of,
}
use bingsan.Events.Spec.{one_if}

unfoldable pub count : ℕ → List ℕ → ℕ
count d [] = 0
count d (c ∷ cs) = one_if (eqb d c) + count d cs

-- How often a channel stands under a topic.
abbrev pub under : String → ℕ → Subscribers → ℕ
under t d subs = count d (or_empty (lookup t subs))

pub count_++ : (d : ℕ) (xs ys : List ℕ) → count d (xs ++ ys) ≡ count d xs + count d ys
unfolding count
count_++ d [] ys = ground arith
count_++ d (c ∷ xs) ys = let rest = count_++ d xs ys in ground arith

pub some_of-count : (d : ℕ) (cs : List ℕ) → some_of (eqb d) cs ≡ ltb 0 (count d cs)
unfolding count
some_of-count d [] = refl
some_of-count d (c ∷ cs) = let rest = some_of-count d cs in ground arith

count-keep :
    (d c : ℕ) (cs : List ℕ)
    → count d (keep (λ k. not (eqb c k)) cs) ≡ (if eqb d c then 0 else count d cs)
unfolding count keep
count-keep d c [] = ground arith
count-keep d c (k ∷ cs) = let rest = count-keep d c cs in ground arith

pub under-add :
    (t u : String) (c d : ℕ) (subs : Subscribers)
    → under u d (add t c subs) ≡ one_if (t == u && eqb d c) + under u d subs
unfolding count lookup add
under-add t u c d [] = ground arith
under-add t u c d ((s, cs) ∷ subs) =
    let rest = under-add t u c d subs in ground (arith, eq_iff s t, eq_iff s u, eq_iff t u)

pub channels_of-add :
    (t : String) (c d : ℕ) (subs : Subscribers)
    → count d (channels_of (add t c subs)) ≡ one_if (eqb d c) + count d (channels_of subs)
unfolding count channels_of add
channels_of-add t c d [] = ground arith
channels_of-add t c d ((s, cs) ∷ subs) =
    let rest = channels_of-add t c d subs in
    ground (arith, count_++ d cs (channels_of subs), count_++ d cs (channels_of (add t c subs)))

pub under-remove :
    (t u : String) (c d : ℕ) (subs : Subscribers)
    → under u d (remove t c subs) ≡ (if t == u && eqb d c then 0 else under u d subs)
unfolding count lookup remove
under-remove t u c d [] = ground arith
under-remove t u c d ((s, cs) ∷ subs) =
    let rest = under-remove t u c d subs in
    let kept = count-keep d c cs in ground (arith, eq_iff s t, eq_iff s u, eq_iff t u)

-- A removal takes away what stands under the topic.
pub channels_of-remove :
    (t : String) (c d : ℕ) (subs : Subscribers)
    → count d (channels_of (remove t c subs)) + (if eqb d c then under t d subs else 0)
      ≡ count d (channels_of subs)
unfolding count channels_of remove lookup
channels_of-remove t c d [] = ground arith
channels_of-remove t c d ((s, cs) ∷ subs) =
    let rest = channels_of-remove t c d subs in
    let kept = count-keep d c cs in
    ground (
      arith,
      count_++ d cs (channels_of subs),
      count_++ d cs (channels_of (remove t c subs)),
      count_++ d (keep (λ k. not (eqb c k)) cs) (channels_of subs),
    )

lookup-delete :
    (t u : String) (subs : Subscribers)
    → lookup u (delete t subs) ≡ (if u == t then none else lookup u subs)
unfolding lookup delete keep
lookup-delete t u [] = ground arith
lookup-delete t u ((s, cs) ∷ subs) =
    let rest = lookup-delete t u subs in ground (arith, eq_iff s t, eq_iff s u, eq_iff u t)

channels_of-delete :
    (t : String) (d : ℕ) (subs : Subscribers)
    → count d (channels_of (delete t subs)) ≤ count d (channels_of subs)
unfolding channels_of delete keep count
channels_of-delete t d [] = ground arith
channels_of-delete t d ((s, cs) ∷ subs) =
    let rest = channels_of-delete t d subs in
    ground (arith, count_++ d cs (channels_of subs), count_++ d cs (channels_of (delete t subs)))

is_empty-count : (d : ℕ) (o : Option (List ℕ)) → is_empty o ≡ true → count d (or_empty o) ≡ 0
unfolding count
is_empty-count d none h = refl
is_empty-count d (some []) h = refl
is_empty-count d (some (c ∷ cs)) h = absurd (ground arith)

pub under-clean_up :
    (t u : String) (d : ℕ) (subs : Subscribers) → under u d (clean_up t subs) ≡ under u d subs
unfolding count
under-clean_up t u d subs = elim (Bool-cases (is_empty (lookup t subs))) [
  | inr full ↦ ground arith
  | inl bare ↦
      let none_left = is_empty-count d (lookup t subs) bare in
      ground (arith, lookup-delete t u subs, eq_iff u t)
]

pub channels_of-clean_up :
    (t : String) (d : ℕ) (subs : Subscribers)
    → count d (channels_of (clean_up t subs)) ≤ count d (channels_of subs)
channels_of-clean_up t d subs = let less = channels_of-delete t d subs in ground arith

pub under-channels_of :
    (t : String) (d : ℕ) (subs : Subscribers) → under t d subs ≤ count d (channels_of subs)
unfolding count lookup channels_of
under-channels_of t d [] = ground arith
under-channels_of t d ((s, cs) ∷ subs) =
    let rest = under-channels_of t d subs in ground (arith, count_++ d cs (channels_of subs))
