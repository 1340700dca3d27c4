-- ===== src/Subscriber/Latest.antt =====
-- What a subscription leaves behind: the identifier that the queue remembers.
use axelar_relayer_core.Base.{
  ℕ, ◌≡◌, refl, Option, some, List, [], ◌∷◌, map, last, All, In, Text, Result, ok, arith,
  Result-cases, inl, inr, Eff, ◌↔◌, subst,
}
use axelar_relayer_core.Infrastructure.Interfaces.{
  QueueMsgId, PeekablePublisher, RemembersLast, from_value,
}
use axelar_relayer_core.AmplifierApi.Types.{TaskItem, TaskItemId, GetTasksResult, ErrorResponse}
use axelar_relayer_core.AmplifierApi.Requests.{Urls}
use axelar_relayer_core.AmplifierApi.Client.{Http, AmplifierApiClient}
use axelar_relayer_core.Subscriber.{Subscriber, Report, fetch, send, subscribe}

-- Every element comes before the ones behind it.
abbrev pub Ascending : {A : Type 0} → (A → A → Type 0) → List A → Type 0
Ascending le [] = Unit
Ascending le (x ∷ xs) = All (le x) xs × Ascending le xs

-- What `sort_unstable_by_key` documents of its result, for an order of the elements.
pub record Sorts {A : Type 0} (le : A → A → Type 0) (sort : List A → List A) : Type 0 where
  pub ascending : (xs : List A) → Ascending le (sort xs)
  pub same : (a : A) (xs : List A) → In a (sort xs) ↔ In a xs

module _ {A : Type 0} where
  last-In : (xs : List A) (a : A) → last xs ≡ some a → In a xs
  last-In [] a h = ground arith
  last-In (x ∷ []) a h = ground arith
  last-In (x ∷ y ∷ ys) a h = inr (last-In (y ∷ ys) a h)

  All-In : (P : A → Type 0) (xs : List A) (a : A) → All P xs → In a xs → P a
  All-In P [] a h i = absurd i
  All-In P (x ∷ xs) a h (inl e) = subst P e h.0
  All-In P (x ∷ xs) a h (inr i) = All-In P xs a h.1 i

  some_injective : {x y : A} → Option.some x ≡ some y → x ≡ y
  some_injective e = ground (arith, e)

  last_greatest :
      (le : A → A → Type 0) (reflexive : (a : A) → le a a) (xs : List A) (m a : A)
      → Ascending le xs
      → last xs ≡ some m
      → In a xs
      → le a m
  last_greatest le reflexive [] m a h e i = absurd i
  last_greatest le reflexive (x ∷ []) m a h e (inl i) =
      subst (λ z. le z m) i (subst (λ z. le x z) (some_injective e) (reflexive x))
  last_greatest le reflexive (x ∷ []) m a h e (inr i) = absurd i
  last_greatest le reflexive (x ∷ y ∷ ys) m a h e (inl i) =
      subst (λ z. le z m) i (All-In (le x) (y ∷ ys) m h.0 (last-In (y ∷ ys) m e))
  last_greatest le reflexive (x ∷ y ∷ ys) m a h e (inr i) =
      last_greatest le reflexive (y ∷ ys) m a h.1 e i

  has_last : (xs : List A) (a : A) → In a xs → (m : A) × (last xs ≡ some m)
  has_last [] a i = absurd i
  has_last (x ∷ []) a i = (x, refl)
  has_last (x ∷ y ∷ ys) a i = has_last (y ∷ ys) y (inl refl)

last-map :
    {A B : Type 0} (f : A → B) (xs : List A) (m : A)
    → last xs ≡ some m
    → last (map f xs) ≡ some (f m)
last-map f [] m h = ground arith
last-map f (x ∷ []) m h = ground arith
last-map f (x ∷ y ∷ ys) m h = last-map f (y ∷ ys) m h

module _ {W E U X Q B P Uuid Utc Return : Type 0} (http : Http W U X Q B P) (urls : Urls U X)
    (hyphenated : Uuid → Text) (to_vec : Unit {0} → Result X (List ℕ))
    (read_tasks : List ℕ → Result X (GetTasksResult Uuid Utc))
    (read_error : List ℕ → Result X ErrorResponse) (client : AmplifierApiClient U)
    (sort : List (TaskItem Uuid Utc) → List (TaskItem Uuid Utc))
    (q : QueueMsgId (TaskItem Uuid Utc) (TaskItemId Uuid))
    (publisher : PeekablePublisher W E (TaskItem Uuid Utc) (TaskItemId Uuid) Return) where
  abbrev fetched :
      Option (TaskItemId Uuid) → Eff (Subscriber W) (Report E X) (GetTasksResult Uuid Utc)
  fetched = fetch http urls hyphenated to_vec read_tasks read_error client sort q publisher

  abbrev sent : List (TaskItem Uuid Utc) → Eff (Subscriber W) (Report E X) (Unit {0})
  sent = send http urls hyphenated to_vec read_tasks read_error client sort q publisher

  abbrev subscribed : Eff (Subscriber W) (Report E X) (Unit {0})
  subscribed = subscribe http urls hyphenated to_vec read_tasks read_error client sort q publisher

  send_remembers :
      (keeps : RemembersLast q publisher) (ts : List (TaskItem Uuid Utc)) (m : TaskItem Uuid Utc)
      (s : Subscriber W) (o : Option (TaskItemId Uuid))
      → last ts ≡ some m
      → (sent ts s).0 ≡ ok tt
      → (publisher.peek_last (sent ts s).1.world).0 ≡ ok o
      → o ≡ some (q.id m)
  unfolding send from_value
  send_remembers keeps [] m s o e h p = ground arith
  send_remembers keeps (t ∷ ts) m s o e h p =
      let batch = map (from_value q) (t ∷ ts) in
      let (r, w) = publisher.publish_batch batch s.world in
      elim (Result-cases r) [
        | inr (x, bad) ↦ ground (arith, bad)
        | inl (rs, good) ↦
            keeps.remembers batch (from_value q m) s.world rs o
              (last-map (from_value q) (t ∷ ts) m e) good (ground (arith, good, p))
      ]

  -- After a subscription that succeeded on an answer with tasks, the next `peek_last` that succeeds
  -- returns the identifier of a task of the answer that no task of the answer is later than, so that
  -- the next subscription asks for the tasks behind it. The publisher keeps the contract of
  -- `PeekablePublisher`, and the sort orders by time stamps.
  pub subscribe_remembers_latest :
      (keeps : RemembersLast q publisher) (at_most : Utc → Utc → Type 0)
      (reflexive : (t : Utc) → at_most t t)
      (sorts : Sorts (λ (a b : TaskItem Uuid Utc). at_most a.timestamp b.timestamp) sort)
      (s : Subscriber W) (t : TaskItem Uuid Utc) (answer : GetTasksResult Uuid Utc)
      (l o : Option (TaskItemId Uuid)) (w : W)
      → publisher.peek_last s.world ≡ (ok l, w)
      → (fetched l (record s { world = w })).0 ≡ ok answer
      → In t answer.tasks
      → (subscribed s).0 ≡ ok tt
      → (publisher.peek_last (subscribed s).1.world).0 ≡ ok o
      → (m : TaskItem Uuid Utc) × In m answer.tasks
        × (o ≡ some (q.id m))
        × ((x : TaskItem Uuid Utc) → In x answer.tasks → at_most x.timestamp m.timestamp)
  unfolding subscribe
  subscribe_remembers_latest keeps at_most reflexive sorts s t answer l o w peeked got i done
        again =
      let ordered = sort answer.tasks in
      let s' = (fetched l (record s { world = w })).1 in
      let (m, e) = has_last ordered t ((sorts.same t answer.tasks).1 i) in
      (
        m,
        (sorts.same m answer.tasks).0 (last-In ordered m e),
        send_remembers keeps ordered m s' o e (ground (arith, peeked, got, done))
            (ground (arith, peeked, got, again)),
        λ x j.
            last_greatest (λ (a b : TaskItem Uuid Utc). at_most a.timestamp b.timestamp)
              (λ a. reflexive a.timestamp) ordered m x (sorts.ascending answer.tasks) e
              ((sorts.same x answer.tasks).1 j),
      )

  fetch_errors :
      (l : Option (TaskItemId Uuid)) (s : Subscriber W) → (fetched l s).1.errors ≡ s.errors
  unfolding fetch
  fetch_errors l s = ground arith

  send_errors : (ts : List (TaskItem Uuid Utc)) (s : Subscriber W) → (sent ts s).1.errors ≡ s.errors
  unfolding send
  send_errors [] s = refl
  send_errors (t ∷ ts) s = ground arith

  -- A subscription never changes the count of errors of its metrics, however it ends.
  pub subscribe_errors_uncounted : (s : Subscriber W) → (subscribed s).1.errors ≡ s.errors
  unfolding subscribe
  subscribe_errors_uncounted s =
      let (r, w) = publisher.peek_last s.world in
      let s0 = record s { world = w } in
      elim (Result-cases r) [
        | inr (x, bad) ↦ ground (arith, bad)
        | inl (l, good) ↦
            let got = fetched l s0 in
            elim (Result-cases got.0) [
              | inr (x, bad) ↦ ground (arith, good, bad, fetch_errors l s0)
              | inl (answer, found) ↦
                  ground
                    (arith, good, found, fetch_errors l s0, send_errors (sort answer.tasks) got.1)
            ]
      ]
