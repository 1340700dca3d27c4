-- ===== src/Subscriber/Tests.antt =====
-- The theorems on the subscriber at an API that answers with three tasks out of order, a queue that
-- keeps its last identifier, and insertion sort.
use axelar_relayer_core.Base.{
  ℕ, ◌≤◌, ◌≡◌, refl, ◌↔◌, ◌⊎◌, inl, inr, true, Option, none, some, List, [], ◌∷◌, ◌++◌, All, In,
  last, Text, codes, Result, ok, err, leb, leb→le, Bool-cases, arith,
}
use axelar_relayer_core.Infrastructure.Interfaces.{
  PublishMessage, PeekablePublisher, RemembersLast, from_value,
}
use axelar_relayer_core.AmplifierApi.Types.{TaskItemId, gateway_tx, GetTasksResult, ErrorResponse}
use axelar_relayer_core.AmplifierApi.Requests.{Urls, get_chains, get_chains_path}
use axelar_relayer_core.AmplifierApi.Requests
use axelar_relayer_core.AmplifierApi.Client.{
  Http, AmplifierApiClient, build_request, execute, json_of,
}
use axelar_relayer_core.Subscriber.{Subscriber, subscribe, fetch, send}
use axelar_relayer_core.Subscriber.Latest.{
  Ascending, Sorts, subscribe_remembers_latest, subscribe_errors_uncounted,
}
use axelar_relayer_core.Subscriber.Sample.{Item, insert, sort, queue_id}

abbrev Before : Item → Item → Type 0
Before a b = a.timestamp ≤ b.timestamp

insert_In : (x a : Item) (bs : List Item) → In x (insert a bs) ↔ ((a ≡ x) ⊎ In x bs)
insert_In x a [] = (λ i. i, λ i. i)
insert_In x a (b ∷ bs) = elim (Bool-cases (leb a.timestamp b.timestamp)) [
  | inl e ↦ rw e (λ i. i, λ i. i)
  | inr e ↦
      let (there, back) = insert_In x a bs in
      rw e (
        λ i. elim i [
          | inl h ↦ inr (inl h)
          | inr j ↦ elim (there j) [ inl h ↦ inl h | inr k ↦ inr (inr k) ]
        ],
        λ i. elim i [
          | inl h ↦ inr (back (inl h))
          | inr (inl h) ↦ inl h
          | inr (inr k) ↦ inr (back (inr k))
        ],
      )
]

sort_In : (x : Item) (xs : List Item) → In x (sort xs) ↔ In x xs
sort_In x [] = (λ i. i, λ i. i)
sort_In x (a ∷ xs) =
    let (there, back) = insert_In x a (sort xs) in
    let (out, into) = sort_In x xs in
    (
      λ i. elim (there i) [ inl h ↦ inl h | inr j ↦ inr (out j) ],
      λ i. elim i [ inl h ↦ back (inl h) | inr j ↦ back (inr (into j)) ],
    )

All-Before : (a b : Item) (bs : List Item) → Before a b → All (Before b) bs → All (Before a) bs
All-Before a b [] h k = tt
All-Before a b (c ∷ cs) h k = (omega (arith, h, k.0), All-Before a b cs h k.1)

insert-All :
    (c a : Item) (bs : List Item) → Before c a → All (Before c) bs → All (Before c) (insert a bs)
insert-All c a [] h k = (h, tt)
insert-All c a (b ∷ bs) h k = elim (Bool-cases (leb a.timestamp b.timestamp)) [
  | inl e ↦ rw e (h, k)
  | inr e ↦ rw e (k.0, insert-All c a bs h k.1)
]

insert-Ascending :
    (a : Item) (bs : List Item) → Ascending Before bs → Ascending Before (insert a bs)
insert-Ascending a [] h = (tt, tt)
insert-Ascending a (b ∷ bs) h = elim (Bool-cases (leb a.timestamp b.timestamp)) [
  | inl e ↦
      let first : Before a b = leb→le a.timestamp b.timestamp e in
      rw e ((first, All-Before a b bs first h.0), h)
  | inr e ↦ rw e (insert-All b a bs (ground (arith, e)) h.0, insert-Ascending a bs h.1)
]

sort-Ascending : (xs : List Item) → Ascending Before (sort xs)
sort-Ascending [] = tt
sort-Ascending (a ∷ xs) = insert-Ascending a (sort xs) (sort-Ascending xs)

sort-Sorts : Sorts Before sort
sort-Sorts = record { ascending = sort-Ascending; same = sort_In }

abbrev item : ℕ → ℕ → Item
item i t = record {
  id = record { uuid = i };
  timestamp = t;
  task = gateway_tx (record { execute_data = [] });
}

abbrev answer : GetTasksResult ℕ ℕ
answer = record { tasks = item 1 30 ∷ item 2 50 ∷ item 3 40 ∷ [] }

-- The world is what the queue remembers.
abbrev World : Type 0
World = Option (TaskItemId ℕ)

abbrev last_id : List (PublishMessage Item) → World → World
last_id [] w = w
last_id (m ∷ []) w = some m.content.id
last_id (m ∷ n ∷ ms) w = last_id (n ∷ ms) w

abbrev publisher : PeekablePublisher World ℕ Item (TaskItemId ℕ) ℕ
publisher = record { publish_batch = λ ms w. (ok [], last_id ms w); peek_last = λ w. (ok w, w) }

last_id-last :
    (ms : List (PublishMessage Item)) (m : PublishMessage Item) (w : World)
    → last ms ≡ some m
    → last_id ms w ≡ some m.content.id
last_id-last [] m w h = ground arith
last_id-last (n ∷ []) m w h = ground arith
last_id-last (n ∷ k ∷ ks) m w h = last_id-last (k ∷ ks) m w h

publisher-RemembersLast : RemembersLast queue_id publisher
publisher-RemembersLast = record {
  remembers = λ ms m w r o h p k. ground (arith, last_id-last ms m w h, k);
}

abbrev http : Http World Text ℕ ℕ ℕ ℕ
http = record {
  request = λ m u b. 0;
  build = λ q. ok q;
  execute = λ b w. (ok 200, w);
  is_success = λ p. true;
  error_for_status = λ p. ok tt;
  bytes = λ p w. (ok [], w);
}

abbrev urls : Urls Text ℕ
urls = record { join = λ u t. ok (u ++ t); append_pair = λ u k v. u ++ (k ++ v) }

abbrev hyphenated : ℕ → Text
hyphenated u = u ∷ []

abbrev to_vec : Unit {0} → Result ℕ (List ℕ)
to_vec u = ok []

abbrev read_tasks : List ℕ → Result ℕ (GetTasksResult ℕ ℕ)
read_tasks bs = ok answer

abbrev read_error : List ℕ → Result ℕ ErrorResponse
read_error bs = err 0

abbrev client : AmplifierApiClient Text
client = record { url = codes "https://api/" }

abbrev subscriber : Subscriber World
subscriber = record { chain = codes "flow"; limit_items = 100; errors = 0; world = none }

subscribe_remembers_latest_example :
    (m : Item) × In m answer.tasks
    × (Option.some (item 2 50).id ≡ some m.id)
    × ((x : Item) → In x answer.tasks → x.timestamp ≤ m.timestamp)
unfolding subscribe fetch send build_request execute json_of get_chains get_chains_path Requests.new
    from_value
subscribe_remembers_latest_example =
    subscribe_remembers_latest http urls hyphenated to_vec read_tasks read_error client sort
      queue_id publisher publisher-RemembersLast (λ a b. a ≤ b) (λ t. omega arith) sort-Sorts
      subscriber (item 1 30) answer none (some (item 2 50).id) none refl refl (inl refl) refl refl

subscribe_errors_uncounted_example :
    (subscribe http urls hyphenated to_vec read_tasks read_error client sort queue_id publisher
      subscriber).1.errors
    ≡ 0
subscribe_errors_uncounted_example =
    subscribe_errors_uncounted http urls hyphenated to_vec read_tasks read_error client sort
      queue_id publisher subscriber
