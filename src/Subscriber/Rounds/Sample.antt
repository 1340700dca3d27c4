-- ===== src/Subscriber/Rounds/Sample.antt =====
-- An API that answers with the two tasks behind the one asked for, the later one first; a task is its
-- place.
use axelar_relayer_core.Base.{
  ℕ, suc, ◌≡◌, refl, subst, true, List, [], ◌∷◌, Text, Result, ok, err, ◌==◌, if◌then◌else◌, arith,
}
use axelar_relayer_core.AmplifierApi.Types.{TaskItemId, gateway_tx, GetTasksResult, ErrorResponse}
use axelar_relayer_core.AmplifierApi.Requests.{Urls}
use axelar_relayer_core.AmplifierApi.Client.{Http, AmplifierApiClient}
use axelar_relayer_core.AmplifierApi.Order.{Consecutive}
use axelar_relayer_core.Subscriber.Sample.{Item, sort, queue_id}

abbrev pub item : ℕ → Item
item i = record {
  id = record { uuid = i };
  timestamp = i;
  task = gateway_tx (record { execute_data = [] });
}

abbrev pub page : ℕ → GetTasksResult ℕ ℕ
page n = record { tasks = item (suc n) ∷ item n ∷ [] }

pub page_sorted : (n : ℕ) → sort (page n).tasks ≡ item n ∷ item (suc n) ∷ []
page_sorted n = ground arith

-- A URL is the place that it asks for, which its pair "after" gives.
abbrev pub first_of : Text → ℕ → ℕ
first_of [] u = u
first_of (n ∷ ns) u = n

abbrev pub pair : ℕ → Text → Text → ℕ
pair u [] v = u
pair u (c ∷ cs) v = if c == b'a' then first_of v u else u

abbrev pub urls : Urls ℕ ℕ
urls = record { join = λ u t. ok u; append_pair = pair }

-- Every request succeeds, and the body of its answer is the place.
abbrev pub http : (W : Type 0) → Http W ℕ ℕ ℕ ℕ ℕ
http W = record {
  request = λ m u b. u;
  build = λ q. ok q;
  execute = λ b w. (ok b, w);
  is_success = λ p. true;
  error_for_status = λ p. ok tt;
  bytes = λ p w. (ok (p ∷ []), w);
}

abbrev pub hyphenated : ℕ → Text
hyphenated u = suc u ∷ []

abbrev pub to_vec : Unit {0} → Result ℕ (List ℕ)
to_vec u = ok []

abbrev pub read_tasks : List ℕ → Result ℕ (GetTasksResult ℕ ℕ)
read_tasks [] = err 0
read_tasks (p ∷ ps) = ok (page p)

abbrev pub read_error : List ℕ → Result ℕ ErrorResponse
read_error bs = err 0

abbrev pub client : AmplifierApiClient ℕ
client = record { url = 0 }

abbrev pub place : TaskItemId ℕ → ℕ
place i = i.uuid

pub page_in_order :
    (n : ℕ) (answer : GetTasksResult ℕ ℕ)
    → page n ≡ answer
    → Consecutive queue_id.id place n (sort answer.tasks)
page_in_order n answer e =
    subst (λ a. Consecutive queue_id.id place n (sort a.tasks)) e
      (rw (page_sorted n) (refl, (refl, tt)))
