-- ===== src/Events/Refinement/Receive.antt =====
-- A receive on the channel of a subscription, against the specification of internal/events/broker.go.
use bingsan.Prelude.{
  ℕ, ◌≡◌, refl, sym, ap, ◌∙◌, String, true, false, not, Option, none, some, List, [], ◌∷◌, inl, inr,
  arith, eqb, Bool-cases, Option-cases, if_cases, subst, if◌then◌else◌,
}
use bingsan.Events.{CatalogEvent}
use bingsan.Events.Broker.{Broker, put, receive, received, taken, ended, blocked}
use bingsan.Events.Spec
use bingsan.Events.Spec.{Subscription, Feed, one_if, copies, offers, change, takes}
use bingsan.Events.Refinement.{
  channel_of, Implements, live_on-change, change-fresh, Implements-same,
}

takes-same :
    (d k : ℕ) (s : Subscription) → ((takes d k s).topic ≡ s.topic) × ((takes d k s).live ≡ s.live)
takes-same d k s = (ground arith, ground arith)

takes-bare : (d k : ℕ) (s : Subscription) → s.queue ≡ [] → takes d k s ≡ s
takes-bare d k s bare =
    if_cases (λ x. x ≡ s) (eqb d k)
      (λ _. ap (λ q. record s { queue = q }) (ap Spec.left bare ∙ sym bare)) (λ _. refl)

takes-nothing :
    (d : ℕ) (g : ℕ → Option Subscription)
    → ((s : Subscription) → g d ≡ some s → s.queue ≡ [])
    → (k : ℕ) → change (takes d) g k ≡ g k
takes-nothing d g bare k = elim (Option-cases (g k)) [
  | inl nothing ↦ ground arith
  | inr (x, there) ↦ elim (Bool-cases (eqb d k)) [
    | inr other ↦ ground arith
    | inl same ↦
        let e : g d ≡ g k = ap g (ground arith) in
        let f = takes-bare d k x (bare x (e ∙ there)) in ground arith
  ]
]

abbrev Answers : ℕ → Broker → Feed → Option Subscription → Type 0
Answers d b v o =
    ((received d (channel_of o) b).0 ≡ Spec.answer o)
    × Implements (received d (channel_of o) b).1 (Spec.receive d v).1

-- The first event of a queue is taken.
take-Implements :
    (d : ℕ) (b : Broker) (v : Feed) (s : Subscription) (e : CatalogEvent) (es : List CatalogEvent)
    → v.subscriptions d ≡ some s
    → s.queue ≡ e ∷ es
    → Implements b v
    → Implements
        (record b { channels = put d (record { buffer = es; closed = not s.live }) b.channels })
        (Spec.receive d v).1
take-Implements d b v s e es there q h =
    let same =
      λ (k : ℕ) (t : String). live_on-change t (takes d) v.subscriptions k (takes-same d k) in
    record {
      channels = λ k.
          let c = h.channels k in
          elim (Option-cases (v.subscriptions k)) [
            | inl nothing ↦ elim (Bool-cases (eqb d k)) [
              | inr other ↦ ground arith
              | inl same ↦
                  let e' : v.subscriptions d ≡ v.subscriptions k =
                    ap v.subscriptions (ground arith) in
                  absurd (ground arith)
            ]
            | inr (x, some_there) ↦ elim (Bool-cases (eqb d k)) [
              | inr other ↦ ground arith
              | inl same ↦
                  let e' : v.subscriptions d ≡ v.subscriptions k =
                    ap v.subscriptions (ground arith) in
                  let f : x ≡ s = ground arith in ground arith
            ]
          ];
      topics = λ t k. h.topics t k ∙ sym (same k t).0;
      once = λ k. let e' = (same k "").1 in let n = h.once k in ground arith;
      fresh = λ k. change-fresh (takes d) v.subscriptions k (h.fresh k);
      next = h.next;
      size = h.size;
      closed = h.closed;
    }

take_from :
    (d : ℕ) (b : Broker) (v : Feed) (s : Subscription) (q : List CatalogEvent)
    → v.subscriptions d ≡ some s
    → s.queue ≡ q
    → Implements b v
    → ((taken d (record { buffer = q; closed = not s.live }) q b.channels).0 ≡ Spec.got s.live q)
      × Implements
          (record b {
            channels = (taken d (record { buffer = q; closed = not s.live }) q b.channels).1;
          })
          (Spec.receive d v).1
take_from d b v s [] there e h = (
  elim s.live as (λ l. (if not l then ended else blocked) ≡ (if l then blocked else ended)) [
    | true ↦ refl
    | false ↦ refl
  ],
  Implements-same b v (change (takes d) v.subscriptions)
      (takes-nothing d v.subscriptions
        (λ x here. let same : x ≡ s = ground arith in ap (λ y. y.queue) same ∙ e))
      h,
)
take_from d b v s (x ∷ xs) there e h = (refl, take-Implements d b v s x xs there e h)

answer_to :
    (d : ℕ) (b : Broker) (v : Feed) (o : Option Subscription)
    → v.subscriptions d ≡ o
    → Implements b v
    → Answers d b v o
answer_to d b v none e h = (
  refl,
  Implements-same b v (change (takes d) v.subscriptions)
      (takes-nothing d v.subscriptions (λ x here. absurd (ground arith))) h,
)
answer_to d b v (some s) e h = take_from d b v s s.queue e refl h

-- A receive answers what the feed answers, and the broker then stands for what is left.
pub receive-Implements :
    (d : ℕ) (b : Broker) (v : Feed)
    → Implements b v
    → ((receive d b).0 ≡ (Spec.receive d v).0) × Implements (receive d b).1 (Spec.receive d v).1
unfolding receive
receive-Implements d b v h =
    subst
      (λ c.
        ((received d c b).0 ≡ Spec.answer (v.subscriptions d))
        × Implements (received d c b).1 (Spec.receive d v).1)
      (sym (h.channels d)) (answer_to d b v (v.subscriptions d) refl h)
