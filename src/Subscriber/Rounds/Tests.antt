-- ===== src/Subscriber/Rounds/Tests.antt =====
-- Two subscriptions, the first of which fails behind its first task. Sample.antt gives the API.
use mathlib.Core.List.{append-nil}
use axelar_relayer_core.Base.{
  Bool-cases, ℕ, suc, ◌≤◌, ◌<◌, ◌≡◌, refl, sym, true, false, Bool, Option, none, some, List, [],
  ◌∷◌, ◌++◌, In, inl, inr, map, codes, Result, ok, err, arith,
}
use axelar_relayer_core.Infrastructure.Interfaces.{
  newest, Delivers, PublishMessage, PeekablePublisher, from_value,
}
use axelar_relayer_core.AmplifierApi.Types.{TaskItemId, GetTasksResult}
use axelar_relayer_core.AmplifierApi.Requests.{Urls, get_chains, get_chains_path}
use axelar_relayer_core.AmplifierApi.Requests
use axelar_relayer_core.AmplifierApi.Client.{build_request, execute, json_of}
use axelar_relayer_core.AmplifierApi.Order.{behind, Consecutive}
use axelar_relayer_core.Subscriber.{Subscriber, subscribe, fetch, send}
use axelar_relayer_core.Subscriber.Rounds.{Rounds, here, tick}
use axelar_relayer_core.Subscriber.Rounds.Complete.{no_task_lost}
use axelar_relayer_core.Subscriber.Sample.{Item, queue_id, sort}
use axelar_relayer_core.Subscriber.Rounds.Sample.{
  item, page_in_order, urls, http, hyphenated, to_vec, read_tasks, read_error, client, place,
}

-- What has been delivered and what is remembered, and whether the next batch fails.
record World : Type 0 where
  pub delivered : List Item
  pub remembered : Option (TaskItemId ℕ)
  pub flaky : Bool

abbrev deliver : List Item → World → World
deliver ts w = record w {
  delivered = w.delivered ++ ts;
  remembered = newest (λ t. t.id) ts w.remembered;
  flaky = false;
}

abbrev contents : List (PublishMessage Item) → List Item
contents ms = map (λ m. m.content) ms

abbrev first_only : List (PublishMessage Item) → World → Result ℕ (List ℕ) × World
first_only [] w = (ok [], w)
first_only (m ∷ ms) w = (err 1, deliver (m.content ∷ []) w)

publish : List (PublishMessage Item) → World → Result ℕ (List ℕ) × World
publish ms w = elim w.flaky [ true ↦ first_only ms w | false ↦ (ok [], deliver (contents ms) w) ]

abbrev publisher : PeekablePublisher World ℕ Item (TaskItemId ℕ) ℕ
publisher = record { publish_batch = publish; peek_last = λ w. (ok w.remembered, w) }

In-append-left : (t : Item) (xs ys : List Item) → In t xs → In t (xs ++ ys)
In-append-left t [] ys i = absurd i
In-append-left t (x ∷ xs) ys (inl e) = inl e
In-append-left t (x ∷ xs) ys (inr i) = inr (In-append-left t xs ys i)

In-append-right : (t : Item) (xs ys : List Item) → In t ys → In t (xs ++ ys)
In-append-right t [] ys i = i
In-append-right t (x ∷ xs) ys i = inr (In-append-right t xs ys i)

publish_grows :
    (ms : List (PublishMessage Item)) (w : World) (t : Item)
    → In t w.delivered
    → In t (publish ms w).1.delivered
unfolding publish
publish_grows ms w t i = elim (Bool-cases w.flaky) [
  | inr e ↦ rw (e, publish) (In-append-left t w.delivered (contents ms) i)
  | inl e ↦ rw (e, publish) (short ms)
]
  where
    short : (ms : List (PublishMessage Item)) → In t (first_only ms w).1.delivered
    short [] = i
    short (m ∷ ms) = In-append-left t w.delivered (m.content ∷ []) i

-- What `Delivers` says of a batch.
abbrev Parted : List (PublishMessage Item) → World → Result ℕ (List ℕ) × World → Type 0
Parted ms w out =
    (done : List Item) × (rest : List Item) × (contents ms ≡ done ++ rest)
    × ((t : Item) → In t done → In t out.1.delivered)
    × (out.1.remembered ≡ newest (λ t. t.id) done w.remembered)
    × ((r : List ℕ) → out.0 ≡ ok r → rest ≡ [])

first_only-Parted : (ms : List (PublishMessage Item)) (w : World) → Parted ms w (first_only ms w)
first_only-Parted [] w = ([], [], refl, (λ t i. absurd i), refl, (λ r e. refl))
first_only-Parted (m ∷ ms) w = (
  m.content ∷ [],
  contents ms,
  refl,
  (λ t i. In-append-right t w.delivered (m.content ∷ []) i),
  refl,
  (λ r e. ground (arith, e)),
)

publish-Parted : (ms : List (PublishMessage Item)) (w : World) → Parted ms w (publish ms w)
unfolding publish
publish-Parted ms w = elim (Bool-cases w.flaky) [
  | inl e ↦ rw (e, publish) (first_only-Parted ms w)
  | inr e ↦
      rw (e, publish)
        (
          contents ms,
          [],
          sym (append-nil (contents ms)),
          (λ t i. In-append-right t w.delivered (contents ms) i),
          refl,
          (λ r e. refl),
        )
]

keeps : Delivers queue_id publisher
keeps = record {
  delivered = λ w. w.delivered;
  remembered = λ w. w.remembered;
  peek_reads = λ w o e. ground (arith, e);
  peek_frame = λ w. (refl, (λ t i. i));
  batch_grows = publish_grows;
  batch_delivers = publish-Parted;
}

abbrev subscriber : World → Subscriber World
subscriber w = record { chain = codes "flow"; limit_items = 100; errors = 0; world = w }

in_order :
    (l : Option (TaskItemId ℕ)) (s : Subscriber World) (answer : GetTasksResult ℕ ℕ)
    → (fetch
        (http World)
        urls
        hyphenated
        to_vec
        read_tasks
        read_error
        client
        sort
        queue_id
        publisher
        l
        s).0
      ≡ ok answer
    → Consecutive queue_id.id place (behind queue_id.id place l) (sort answer.tasks)
unfolding fetch build_request execute json_of get_chains get_chains_path Requests.new
in_order none s answer e = page_in_order 0 answer (ground (arith, e))
in_order (some i) s answer e = page_in_order (suc (place i)) answer (ground (arith, e))

abbrev Never : World → World → Type 0
Never w w' = ⊥

abbrev before : World
before = record { delivered = []; remembered = none; flaky = true }

abbrev after : World
after = record {
  delivered = item 0 ∷ item 1 ∷ item 2 ∷ [];
  remembered = some (item 2).id;
  flaky = false;
}

two_rounds :
    Rounds
      (http World)
      urls
      hyphenated
      to_vec
      read_tasks
      read_error
      client
      sort
      queue_id
      publisher
      Never
      (subscriber before)
      (subscriber after)
unfolding subscribe fetch send build_request execute json_of get_chains get_chains_path Requests.new
    publish from_value
two_rounds = tick (tick here refl) refl

no_task_lost_example :
    (0 ≤ 3) × ((k : ℕ) → 0 ≤ k → k < 3 → (t : Item) × In t after.delivered × (t.id.uuid ≡ k))
unfolding keeps
no_task_lost_example =
    no_task_lost (http World) urls hyphenated to_vec read_tasks read_error client sort queue_id
      publisher place keeps (λ b w. (refl, (λ t i. i))) (λ p w. (refl, (λ t i. i))) in_order Never
      (λ w w' e. absurd e) (subscriber before) (subscriber after) two_rounds
