-- ===== src/AmplifierApi/Requests.antt =====
-- crates/amplifier-api/src/client/requests.rs and error.rs: the requests, and the trait that the client
-- sends them by. URLs (the crate `url`) are the parameter `Urls`; `hyphenated` prints a UUID.
use mathlib.Core.List.{append-nil}
use axelar_relayer_core.Base.{
  ℕ, ◌≡◌, sym, Option, none, some, List, [], ◌∷◌, ◌++◌, Text, codes, Result, ok, err, map_err,
  arith, Result-cases, inl, inr,
}
use axelar_relayer_core.Base.Decimal.{decimal}
use axelar_relayer_core.AmplifierApi.Types.{TaskItemId, PublishEventsRequest}

pub data AmplifierApiError (X : Type 0) : Type 0 where
  reqwest_with_middleware reqwest url_parse json : X → AmplifierApiError X

pub data Method : Type 0 where
  get post : Method

pub record WithTrailingSlash : Type 0 where
  pub text : Text

-- `WithTrailingSlash::new`.
unfoldable pub new : Text → WithTrailingSlash
new base = record { text = base ++ codes "/" }

pub record Urls (U X : Type 0) : Type 0 where
  pub join : U → Text → Result X U
  pub append_pair : U → Text → Text → U

-- The trait `AmplifierApiRequest` for requests `R`.
pub record AmplifierApiRequest (U X R Payload : Type 0) : Type 0 where
  pub method : Method
  pub path : R → U → Result (AmplifierApiError X) U
  pub payload : R → Payload

pub record HealthCheck : Type 0 where
    -- No field.

pub record GetChains (Uuid : Type 0) : Type 0 where
  pub chain : WithTrailingSlash
  pub after : Option (TaskItemId Uuid)
  pub before : Option (TaskItemId Uuid)
  pub limit : Option ℕ

pub record PostEvents (Uuid Utc : Type 0) : Type 0 where
  pub chain : WithTrailingSlash
  pub payload : PublishEventsRequest Uuid Utc

abbrev chain_result : {X A B : Type 0} → Result X A → (A → Result X B) → Result X B
chain_result (ok a) f = f a
chain_result (err e) f = err e

module _ {U X : Type 0} (urls : Urls U X) where
  -- `base_url.join("chains/")?.join(chain)?.join(last)?`.
  abbrev chains_url : WithTrailingSlash → Text → U → Result X U
  chains_url chain last base_url =
      chain_result (urls.join base_url (codes "chains/"))
        (λ u. chain_result (urls.join u chain.text) (λ v. urls.join v last))

  -- The request for the health of the API.
  unfoldable pub health_check : AmplifierApiRequest U X HealthCheck (Unit {0})
  health_check = record {
    method = get;
    path = λ _ base_url. map_err url_parse (urls.join base_url (codes "health"));
    payload = λ _. tt;
  }

  abbrev append_limit : Option ℕ → U → U
  append_limit none url = url
  append_limit (some limit) url = urls.append_pair url (codes "limit") (decimal limit)

  module _ {Uuid : Type 0} (hyphenated : Uuid → Text) where
    abbrev append_task : Text → Option (TaskItemId Uuid) → U → U
    append_task key none url = url
    append_task key (some task) url = urls.append_pair url key (hyphenated task.uuid)

    unfoldable pub get_chains_path : GetChains Uuid → U → Result (AmplifierApiError X) U
    get_chains_path r base_url = elim (chains_url r.chain (codes "tasks") base_url) [
      | err e ↦ err (url_parse e)
      | ok url ↦ ok (
          append_limit r.limit
            (append_task (codes "before") r.before (append_task (codes "after") r.after url)))
    ]

    -- The request for the tasks of a chain.
    unfoldable pub get_chains : AmplifierApiRequest U X (GetChains Uuid) (Unit {0})
    get_chains = record { method = get; path = get_chains_path; payload = λ _. tt }

    abbrev pair_of : Text → Option (TaskItemId Uuid) → List (Text × Text)
    pair_of key none = []
    pair_of key (some task) = (key, hyphenated task.uuid) ∷ []

    abbrev limit_pair : Option ℕ → List (Text × Text)
    limit_pair none = []
    limit_pair (some limit) = (codes "limit", decimal limit) ∷ []

    module _ (query : U → List (Text × Text))
        (joined : (u v : U) (t : Text) → urls.join u t ≡ ok v → query v ≡ [])
        (appended : (u : U) (k v : Text)
          → query (urls.append_pair u k v) ≡ query u ++ (k, v) ∷ []) where
      append_task-query :
          (k : Text) (o : Option (TaskItemId Uuid)) (u : U)
          → query (append_task k o u) ≡ query u ++ pair_of k o
      append_task-query k none u = sym (append-nil (query u))
      append_task-query k (some t) u = appended u k (hyphenated t.uuid)

      append_limit-query :
          (o : Option ℕ) (u : U) → query (append_limit o u) ≡ query u ++ limit_pair o
      append_limit-query none u = sym (append-nil (query u))
      append_limit-query (some n) u = appended u (codes "limit") (decimal n)

      chains_url-query :
          (c : WithTrailingSlash) (t : Text) (base v : U)
          → chains_url c t base ≡ ok v
          → query v ≡ []
      chains_url-query c t base v h = elim (Result-cases (urls.join base (codes "chains/"))) [
        | inr (e, bad) ↦ ground (arith, bad)
        | inl (u, good) ↦ elim (Result-cases (urls.join u c.text)) [
          | inr (e, bad) ↦ ground (arith, good, bad)
          | inl (u', good') ↦ joined u' v t (ground (arith, good, good'))
        ]
      ]

      -- Where `query` reads the pairs of a URL, joining leaves none and appending adds one behind the
      -- others, the URL of a request for tasks carries its fields that are given, `after`, `before`
      -- and `limit` in this order, and nothing else.
      pub get_chains_path-query :
          (r : GetChains Uuid) (base_url url : U)
          → get_chains_path r base_url ≡ ok url
          → query url
            ≡ (pair_of (codes "after") r.after ++ pair_of (codes "before") r.before)
              ++ limit_pair r.limit
      unfolding get_chains_path
      get_chains_path-query r base_url url h =
          elim (Result-cases (chains_url r.chain (codes "tasks") base_url)) [
            | inr (e, bad) ↦ ground (arith, bad)
            | inl (v, good) ↦
                let a = append_task (codes "after") r.after v in
                let b = append_task (codes "before") r.before a in
                ground (
                  arith,
                  good,
                  chains_url-query r.chain (codes "tasks") base_url v good,
                  append_task-query (codes "after") r.after v,
                  append_task-query (codes "before") r.before a,
                  append_limit-query r.limit b,
                )
          ]

  -- The request that publishes events.
  unfoldable pub post_events :
      {Uuid Utc : Type 0}
      → AmplifierApiRequest U X (PostEvents Uuid Utc) (PublishEventsRequest Uuid Utc)
  post_events = record {
    method = post;
    path = λ r base_url. map_err url_parse (chains_url r.chain (codes "events") base_url);
    payload = λ r. r.payload;
  }
