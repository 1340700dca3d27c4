-- ===== src/Subscriber/Rounds/Newest.antt =====
-- What a queue remembers after a batch of consecutive messages.
use axelar_relayer_core.Base.{
  ℕ, suc, ◌≤◌, ◌<◌, ◌≡◌, refl, ap, Option, some, List, [], ◌∷◌, ◌++◌, In, inl, inr, map, ltb, arith,
  Bool-cases,
}
use axelar_relayer_core.Infrastructure.Interfaces.{newest, QueueMsgId, from_value}
use axelar_relayer_core.AmplifierApi.Order.{behind, Consecutive}

module _ {I T : Type 0} (id_of : T → I) (position : I → ℕ) where
  -- Consecutive messages move what is remembered on by one place each.
  pub newest-behind :
      (n : ℕ) (done rest : List T) (o : Option I)
      → behind id_of position o ≡ n
      → Consecutive id_of position n (done ++ rest)
      → n ≤ behind id_of position (newest id_of done o)
  newest-behind n [] rest o e c = omega arith
  newest-behind n (t ∷ ts) rest o e (at, c) =
      omega (arith, newest-behind (suc n) ts rest (some (id_of t)) (ap suc at) c)

  pub newest-covers :
      (n k : ℕ) (done rest : List T) (o : Option I)
      → behind id_of position o ≡ n
      → Consecutive id_of position n (done ++ rest)
      → n ≤ k
      → k < behind id_of position (newest id_of done o)
      → (t : T) × In t done × (position (id_of t) ≡ k)
  newest-covers n k [] rest o e c h l = absurd (omega arith)
  newest-covers n k (t ∷ ts) rest o e (at, c) h l = elim (Bool-cases (ltb n k)) [
    | inr first ↦ (t, inl refl, ground (arith, first))
    | inl later ↦
        let (t', i, e') =
          newest-covers (suc n) k ts rest (some (id_of t)) (ap suc at) c (ground (arith, later))
            l in
        (t', inr i, e')
  ]

pub contents_of_values :
    {T MsgId : Type 0} (q : QueueMsgId T MsgId) (ts : List T)
    → map (λ m. m.content) (map (from_value q) ts) ≡ ts
unfolding from_value
contents_of_values q [] = refl
contents_of_values q (t ∷ ts) = ap (λ l. t ∷ l) (contents_of_values q ts)
