-- ===== src/AmplifierApi/Tests.antt =====
-- The theorems on the API's types, requests and responses at concrete values.
use axelar_relayer_core.Base.{
  ℕ, zero, suc, ◌≡◌, refl, Bool, true, false, none, some, List, [], ◌∷◌, ◌++◌, length, Text, codes,
  Result, ok, err, if◌then◌else◌, arith,
}
use axelar_relayer_core.Base.Int.{negsuc}
use axelar_relayer_core.AmplifierApi.TxEvent
use axelar_relayer_core.AmplifierApi.TxEvent.Parse.{hash_and_index-new}
use axelar_relayer_core.AmplifierApi.BigInt.{BigInt, serialize, deserialize, deserialize-serialize}
use axelar_relayer_core.AmplifierApi.Time.Sample.{clockwork, clockwork-ReadsBack, before_epoch}
use axelar_relayer_core.AmplifierApi.Time.{
  serialize_option_utc, deserialize_option_utc, deserialize_option_utc-serialize_option_utc,
}
use axelar_relayer_core.AmplifierApi.Requests.{
  AmplifierApiError, Urls, GetChains, get_chains_path, get_chains_path-query,
}
use axelar_relayer_core.AmplifierApi.Requests
use axelar_relayer_core.AmplifierApi.Client.{Http, json_of}

hash_and_index-new_example :
    TxEvent.hash_and_index (TxEvent.new (codes "0xa-b") 12) ≡ ok (codes "0xa-b", 12)
hash_and_index-new_example = hash_and_index-new (codes "0xa-b") 12 (omega arith)

-- A string is its length and its characters.
abbrev split_at : ℕ → List ℕ → Result ℕ (Text × List ℕ)
split_at zero bs = ok ([], bs)
split_at (suc n) [] = err 0
split_at (suc n) (b ∷ bs) = elim (split_at n bs) [ err e ↦ err e | ok (t, rest) ↦ ok (b ∷ t, rest) ]

abbrev read_string : List ℕ → Result ℕ (Text × List ℕ)
read_string [] = err 0
read_string (n ∷ bs) = split_at n bs

abbrev write_string : Text → List ℕ
write_string t = length t ∷ t

split_at-append : (t rest : List ℕ) → split_at (length t) (t ++ rest) ≡ ok (t, rest)
split_at-append [] rest = refl
split_at-append (x ∷ t) rest = ground (arith, split_at-append t rest)

abbrev amount : BigInt
amount = record { inner = negsuc 41 }

deserialize-serialize_example :
    deserialize write_string read_string 1 (serialize write_string read_string 1 amount ++ 7 ∷ [])
    ≡ ok (amount, 7 ∷ [])
deserialize-serialize_example =
    deserialize-serialize write_string read_string 1 split_at-append amount (7 ∷ []) refl

deserialize_option_utc-serialize_option_utc_example :
    deserialize_option_utc clockwork (serialize_option_utc clockwork (some before_epoch) ++ 3 ∷ [])
    ≡ ok (some before_epoch, 3 ∷ [])
deserialize_option_utc-serialize_option_utc_example =
    deserialize_option_utc-serialize_option_utc clockwork clockwork-ReadsBack (some before_epoch)
      (3 ∷ [])

-- A URL is its path and its pairs.
abbrev urls : Urls (Text × List (Text × Text)) ℕ
urls = record { join = λ u t. ok (u.0 ++ t, []); append_pair = λ u k v. (u.0, u.1 ++ (k, v) ∷ []) }

abbrev hyphenated : Text → Text
hyphenated t = t

abbrev request : GetChains Text
request = record {
  chain = Requests.new (codes "flow");
  after = some (record { uuid = codes "u" });
  before = none;
  limit = some 25;
}

abbrev tasks_url : Text × List (Text × Text)
tasks_url = (
  codes "https://api/chains/flow/tasks",
  (codes "after", codes "u") ∷ (codes "limit", codes "25") ∷ [],
)

-- Responses are their status, and their body.
abbrev http : Http ℕ Text ℕ Text Text (Bool × List ℕ)
http = record {
  request = λ m u b. u;
  build = λ q. ok q;
  execute = λ b w. (ok (true, []), suc w);
  is_success = λ p. p.0;
  error_for_status = λ p. if p.0 then ok tt else err 4;
  bytes = λ p w. (ok p.1, suc w);
}

abbrev read_number : List ℕ → Result ℕ ℕ
read_number [] = err 3
read_number (b ∷ bs) = ok b

abbrev answer : Result (AmplifierApiError ℕ) (Result ℕ ℕ) × ℕ
answer = json_of http read_number read_number (false, 8 ∷ []) 0
