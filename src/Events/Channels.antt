-- ===== src/Events/Channels.antt =====
-- The channels of internal/events/broker.go: how those that are sent to and closed change, and when no
-- call on a channel panics.
use bingsan.Prelude.{
  ℕ, suc, ◌+◌, ◌≤◌, ◌≡◌, refl, ap, ◌∙◌, Bool, true, false, not, Option, none, some, List, [], ◌∷◌,
  ◌++◌, inl, inr, arith, ltb, eqb, length, Bool-cases, Option-cases, if◌then◌else◌,
}
use bingsan.Events.{CatalogEvent}
use bingsan.Events.Broker.{Channel, Heap, put, send, send_all, close_channel, close_channels}
use bingsan.Events.Spec.{one_if, offers}
use bingsan.Events.Registry.{count}

abbrev pub open_count : Option Channel → ℕ
open_count none = 0
open_count (some c) = one_if (not c.closed)

-- Closing a channel, or sending to it n times.
abbrev pub shut : Bool → Option Channel → Option Channel
shut b none = none
shut b (some c) = if b then some (record c { closed = true }) else some c

abbrev pub sent : ℕ → CatalogEvent → ℕ → Option Channel → Option Channel
sent size e n none = none
sent size e n (some c) = some (record c { buffer = offers size e n c.buffer })

pub close_channel-open :
    (d : ℕ) (heap : Heap)
    → 1 ≤ open_count (heap d)
    → (after : Heap) × (close_channel d heap ≡ some after)
      × ((k : ℕ) → after k ≡ shut (eqb d k) (heap k))
unfolding close_channel
close_channel-open d heap h = elim (Option-cases (heap d)) [
  | inl gone ↦ absurd (ground arith)
  | inr (c, is_there) ↦ (
    put d (record c { closed = true }) heap,
    ground arith,
    λ k. elim (Bool-cases (eqb d k)) [
      | inl same ↦ let e : heap d ≡ heap k = ap heap (ground arith) in ground arith
      | inr other ↦ elim (Option-cases (heap k)) [
        | inl nothing ↦ ground arith
        | inr (x, some_there) ↦ ground arith
      ]
    ],
  )
]

shut_then :
    (b : Bool) (n : ℕ) (o : Option Channel) {p q : Option Channel}
    → p ≡ shut b o
    → q ≡ shut (ltb 0 n) p
    → q ≡ shut (ltb 0 (one_if b + n)) o
shut_then b n none h k = ground arith
shut_then true n (some c) h k = ground arith
shut_then false n (some c) h k = ground arith

sent_then :
    (size : ℕ) (e : CatalogEvent) (b : Bool) (n : ℕ) (o : Option Channel) {p q : Option Channel}
    → p ≡ sent size e (one_if b) o
    → q ≡ sent size e n p
    → q ≡ sent size e (one_if b + n) o
sent_then size e b n none h k = ground arith
sent_then size e true n (some c) h k =
    let next : 1 + n ≡ suc n = ground arith in
    let e' = ap (λ m. offers size e m c.buffer) next in ground arith
sent_then size e false n (some c) h k = ground arith

open_count-middle :
    (d k : ℕ) (n : ℕ) (heap : Heap) {o : Option Channel}
    → o ≡ shut (eqb d k) (heap k)
    → one_if (eqb d k) + n ≤ open_count (heap k)
    → n ≤ open_count o
open_count-middle d k n heap e h = elim (Option-cases (heap k)) [
  | inl nothing ↦ ground arith
  | inr (c, there) ↦ ground arith
]

-- The channels close without a panic, and no other changes.
abbrev pub Closes : List ℕ → Heap → Type 0
Closes ds heap =
    (after : Heap) × (close_channels ds heap ≡ some after)
    × ((k : ℕ) → after k ≡ shut (ltb 0 (count k ds)) (heap k))

close_channels-cons :
    (d : ℕ) (ds : List ℕ) (heap middle : Heap)
    → close_channel d heap ≡ some middle
    → ((k : ℕ) → middle k ≡ shut (eqb d k) (heap k))
    → Closes ds middle
    → Closes (d ∷ ds) heap
unfolding close_channels count
close_channels-cons d ds heap middle e f (after, e', f') = (
  after,
  ground arith,
  λ k.
      shut_then (eqb k d) (count k ds) (heap k) (f k ∙ ap (λ b. shut b (heap k)) (ground arith))
        (f' k),
)

-- Channels that are open, each named once, are closed without a panic.
pub close_channels-open :
    (ds : List ℕ) (heap : Heap) → ((k : ℕ) → count k ds ≤ open_count (heap k)) → Closes ds heap
unfolding close_channels count
close_channels-open [] heap h = (
  heap,
  refl,
  λ k. elim (Option-cases (heap k)) [ inl e ↦ ground arith | inr (c, e) ↦ ground arith ],
)
close_channels-open (d ∷ ds) heap h =
    let here = h d in
    let (middle, e, f) = close_channel-open d heap (ground arith) in
    close_channels-cons d ds heap middle e f (
      close_channels-open ds middle
        (λ k. let bound = h k in open_count-middle d k (count k ds) heap (f k) (ground arith)))

pub send-open :
    (size d : ℕ) (e : CatalogEvent) (heap : Heap)
    → 1 ≤ open_count (heap d)
    → (after : Heap) × (send size e d heap ≡ some after)
      × ((k : ℕ) → after k ≡ sent size e (one_if (eqb d k)) (heap k))
unfolding send
send-open size d e heap h = elim (Option-cases (heap d)) [
  | inl gone ↦ absurd (ground arith)
  | inr (c, there) ↦ elim (Bool-cases (ltb (length c.buffer) size)) [
    | inl room ↦ (
      put d (record c { buffer = c.buffer ++ e ∷ [] }) heap,
      ground arith,
      λ k. elim (Bool-cases (eqb d k)) [
        | inl same ↦ let e : heap d ≡ heap k = ap heap (ground arith) in ground arith
        | inr other ↦ elim (Option-cases (heap k)) [
          | inl nothing ↦ ground arith
          | inr (x, some_there) ↦ ground arith
        ]
      ],
    )
    | inr full ↦ (
      heap,
      ground arith,
      λ k. elim (Bool-cases (eqb d k)) [
        | inl same ↦ let e : heap d ≡ heap k = ap heap (ground arith) in ground arith
        | inr other ↦ elim (Option-cases (heap k)) [
          | inl nothing ↦ ground arith
          | inr (x, some_there) ↦ ground arith
        ]
      ],
    )
  ]
]

-- The sends succeed without a panic, and no channel opens or closes.
abbrev pub Sends : ℕ → CatalogEvent → List ℕ → Heap → Type 0
Sends size e ds heap =
    (after : Heap) × (send_all size e ds heap ≡ some after)
    × ((k : ℕ) → after k ≡ sent size e (count k ds) (heap k))

send_all-cons :
    (size d : ℕ) (e : CatalogEvent) (ds : List ℕ) (heap middle : Heap)
    → send size e d heap ≡ some middle
    → ((k : ℕ) → middle k ≡ sent size e (one_if (eqb d k)) (heap k))
    → Sends size e ds middle
    → Sends size e (d ∷ ds) heap
unfolding send_all count
send_all-cons size d e ds heap middle m f (after, m', f') = (
  after,
  ground arith,
  λ k.
      sent_then size e (eqb k d) (count k ds) (heap k)
        (f k ∙ ap (λ b. sent size e (one_if b) (heap k)) (ground arith)) (f' k),
)

open_count-sent :
    (size : ℕ) (e : CatalogEvent) (n : ℕ) (o : Option Channel) {p : Option Channel}
    → p ≡ sent size e n o
    → open_count p ≡ open_count o
open_count-sent size e n none h = ground arith
open_count-sent size e n (some c) h = ground arith

-- An event is sent to channels that are open, each as often as it is named, without a panic.
pub send_all-open :
    (size : ℕ) (e : CatalogEvent) (ds : List ℕ) (heap : Heap)
    → ((k : ℕ) → 1 ≤ count k ds → 1 ≤ open_count (heap k))
    → Sends size e ds heap
unfolding send_all count
send_all-open size e [] heap h = (
  heap,
  refl,
  λ k. elim (Option-cases (heap k)) [ inl e ↦ ground arith | inr (c, e) ↦ ground arith ],
)
send_all-open size e (d ∷ ds) heap h =
    let (middle, m, f) = send-open size d e heap (h d (ground arith)) in
    send_all-cons size d e ds heap middle m f (
      send_all-open size e ds middle (λ k more.
        let before = h k (ground arith) in
        let same = open_count-sent size e (one_if (eqb d k)) (heap k) (f k) in ground arith))
