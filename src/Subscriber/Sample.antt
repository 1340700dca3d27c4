-- ===== src/Subscriber/Sample.antt =====
-- Tasks with numbers for identifiers and time stamps, and insertion sort.
use axelar_relayer_core.Base.{ℕ, List, [], ◌∷◌, leb, if◌then◌else◌, codes}
use axelar_relayer_core.Infrastructure.Interfaces.{QueueMsgId}
use axelar_relayer_core.AmplifierApi.Types.{TaskItem, TaskItemId}

abbrev pub Item : Type 0
Item = TaskItem ℕ ℕ

abbrev pub insert : Item → List Item → List Item
insert a [] = a ∷ []
insert a (b ∷ bs) =
    let rest = insert a bs in if leb a.timestamp b.timestamp then a ∷ b ∷ bs else b ∷ rest

abbrev pub sort : List Item → List Item
sort [] = []
sort (a ∷ xs) = insert a (sort xs)

abbrev pub queue_id : QueueMsgId Item (TaskItemId ℕ)
queue_id = record { id = λ t. t.id; to_string = λ i. codes "id" }
