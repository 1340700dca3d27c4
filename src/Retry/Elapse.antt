-- ===== src/Retry/Elapse.antt =====
-- What the theorems on retries say of `tokio::time::sleep` and of the functions that are retried, for
-- crates/retry: a relation tells which worlds a function cannot tell apart.
use axelar_relayer_core.Base.{ℕ, ◌≡◌, Result}

-- A function that does not see the difference between worlds that are the same as far as `Same` goes.
abbrev pub IsBlind : {W T Err : Type 0} → (W → W → Type 0) → (W → Result Err T × W) → Type 0
IsBlind {W = W} Same f = (w w' : W) → Same w w' → ((f w).0 ≡ (f w').0) × Same (f w).1 (f w').1

-- Sleeps of any lengths make no difference that `Same` sees.
abbrev pub IsQuiet : {W : Type 0} → (W → W → Type 0) → (ℕ → W → W) → Type 0
IsQuiet {W = W} Same sleep = (d d' : ℕ) (w w' : W) → Same w w' → Same (sleep d w) (sleep d' w')

-- To sleep or not makes no difference that `Same` sees.
abbrev pub IsUnseen : {W : Type 0} → (W → W → Type 0) → (ℕ → W → W) → Type 0
IsUnseen {W = W} Same sleep = (d : ℕ) (w w' : W) → Same w w' → Same (sleep d w) w'
