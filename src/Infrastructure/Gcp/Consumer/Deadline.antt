-- ===== src/Infrastructure/Gcp/Consumer/Deadline.antt =====
-- The deadline of a message: each report of progress doubles it, within the range of an `i32`.
use native.Mathlib.Nat.{pow-succ', mul_assoc}
use axelar_relayer_core.Base.{
  ℕ, zero, suc, ◌*◌, ◌^◌, ◌<◌, ◌≡◌, ◌≤◌, ◌∙◌, ap, sym, refl, true, arith, Bool-cases, inl, inr,
}
use axelar_relayer_core.Base.Int.{ℤ, pos, fits_signed, double, checked_double_i32, unwrap_or_ℤ}
use axelar_relayer_core.Infrastructure.Interfaces.{AckKind}
use axelar_relayer_core.Infrastructure.Gcp.Defs.{Redis, PubSub}
use axelar_relayer_core.Infrastructure.Gcp.Consumer.{GcpMessage, State, ack}

fits_doubled :
    (a : ℤ) → fits_signed 31 a ≡ true → fits_signed 31 (unwrap_or_ℤ (checked_double_i32 a) a) ≡ true
fits_doubled a h = elim (Bool-cases (fits_signed 31 (double a))) [
  | inl e ↦ rw (e, e)
  | inr e ↦ rw (e, h)
]

doubled_in_range :
    (d : ℕ) → d * 2 < 2 ^ 31 → unwrap_or_ℤ (checked_double_i32 (pos d)) (pos d) ≡ pos (d * 2)
doubled_in_range d h = ground arith

mul-pow-suc : (n d : ℕ) → d * 2 ^ suc n ≡ d * 2 * 2 ^ n
mul-pow-suc n d = rw (pow-succ' 2 n) (sym (mul_assoc d 2 (2 ^ n)))

le-mul-pow : (n d : ℕ) → d ≤ d * 2 ^ n
le-mul-pow zero d = omega arith
le-mul-pow (suc n) d = omega (arith, mul-pow-suc n d, le-mul-pow n (d * 2))

module _ {W X T M H : Type 0} (redis : Redis W X) (pubsub : PubSub W X M H) where
  -- The message after `n` reports of progress, whether or not Pub/Sub accepts them.
  abbrev pub extend : ℕ → GcpMessage T M → State W → GcpMessage T M × State W
  extend zero m s = (m, s)
  extend (suc n) m s = let (r, m') = ack redis pubsub AckKind.progress m s in extend n m' r.1

  progress_deadline :
      (m : GcpMessage T M) (s : State W)
      → (ack redis pubsub AckKind.progress m s).1.ack_deadline_secs
        ≡ unwrap_or_ℤ (checked_double_i32 m.ack_deadline_secs) m.ack_deadline_secs
  unfolding ack
  progress_deadline m s = refl

  -- `n` reports of progress multiply a deadline of `d` seconds by 2 ^ n, as long as the result is an
  -- `i32`.
  pub extend_doubles :
      (n d : ℕ) (m : GcpMessage T M) (s : State W)
      → m.ack_deadline_secs ≡ pos d
      → d * 2 ^ n < 2 ^ 31
      → (extend n m s).0.ack_deadline_secs ≡ pos (d * 2 ^ n)
  extend_doubles zero d m s e h = ground arith
  extend_doubles (suc n) d m s e h =
      let (r, m') = ack redis pubsub AckKind.progress m s in
      let room : d * 2 * 2 ^ n < 2 ^ 31 = rw (← mul-pow-suc n d) h in
      let twice : m'.ack_deadline_secs ≡ pos (d * 2) =
        progress_deadline m s
        ∙ ap (λ a. unwrap_or_ℤ (checked_double_i32 a) a) e
        ∙ doubled_in_range d (omega (arith, room, le-mul-pow n (d * 2))) in
      rw (mul-pow-suc n d) (extend_doubles n (d * 2) m' r.1 twice room)

  -- A deadline that is an `i32` stays one under any number of reports of progress: where doubling
  -- would overflow, it is kept.
  pub extend_fits :
      (n : ℕ) (m : GcpMessage T M) (s : State W)
      → fits_signed 31 m.ack_deadline_secs ≡ true
      → fits_signed 31 (extend n m s).0.ack_deadline_secs ≡ true
  extend_fits zero m s h = h
  extend_fits (suc n) m s h =
      let (r, m') = ack redis pubsub AckKind.progress m s in
      extend_fits n m' r.1 (rw (progress_deadline m s) (fits_doubled m.ack_deadline_secs h))
