-- ===== src/Integration/Amplifier.antt =====
-- `Amplifier::new` and `get_clock` of crates/relayer-amplifier-api-integration/src/component.rs. The
-- channels (futures) and the upkeep thread of the clock (quanta) are parameters.
use axelar_relayer_core.Base.{
  ◌≡◌, ◌≢◌, Option, none, some, ok, err, Eff, arith, Result-cases, Option-cases, inl, inr,
}

-- The component, and what its users hold: `AmplifierCommandClient` and `AmplifierTaskReceiver`.
pub record Amplifier (Config State Tx Rx : Type 0) : Type 0 where
  pub config : Config
  pub receiver : Rx
  pub sender : Tx
  pub state : State

pub record AmplifierCommandClient (Tx : Type 0) : Type 0 where
  pub sender : Tx

pub record AmplifierTaskReceiver (Rx : Type 0) : Type 0 where
  pub receiver : Rx

module _ {W Config State Tx Rx : Type 0} (unbounded : W → (Tx × Rx) × W) where
  -- `Amplifier::new`.
  unfoldable pub new :
      Config
      → State
      → W
      → (Amplifier Config State Tx Rx × AmplifierCommandClient Tx × AmplifierTaskReceiver Rx) × W
  new config state w =
      let (commands, w') = unbounded w in
      let (tasks, w'') = unbounded w' in
      let this : Amplifier Config State Tx Rx = record {
        config = config;
        receiver = commands.1;
        sender = tasks.0;
        state = state;
      } in
      ((this, record { sender = commands.0 }, record { receiver = tasks.1 }), w'')

  -- The client sends to the component, and the component to the receiver of tasks, over two channels
  -- of their own.
  pub new-Connects :
      (Joined : Tx → Rx → Type 0)
      → ((w : W) → Joined (unbounded w).0.0 (unbounded w).0.1)
      → (config : Config) (state : State) (w : W)
      → let (this, client, tasks) = (new config state w).0 in
        Joined client.sender this.receiver × Joined this.sender tasks.receiver
  unfolding new
  new-Connects Joined joins config state w = (joins w, joins (unbounded w).1)

-- `quanta::Error`.
pub data QuantaError : Type 0 where
  failed_to_spawn_upkeep_thread : QuantaError
  upkeep_running : QuantaError

-- What a call of `get_clock` comes to: `expect` panics if the cell has been set.
pub data Clock : Type 0 where
  clock : Clock
  could_not_spawn : Clock
  panics : Clock

-- The cell `CLOCK_UPKEEP_HANDLE`, which is never emptied, and the world of the upkeep thread.
pub record Upkeep (Handle W : Type 0) : Type 0 where
  pub handle : Option Handle
  pub world : W

module _ {Handle W : Type 0} (start : Eff W QuantaError Handle) where
  -- `CLOCK_UPKEEP_HANDLE.set(x).expect(…)`.
  abbrev set : Handle → Upkeep Handle W → Clock × Upkeep Handle W
  set h s = elim s.handle [ none ↦ (clock, record s { handle = some h }) | some h' ↦ (panics, s) ]

  -- `get_clock`.
  unfoldable pub get_clock : Upkeep Handle W → Clock × Upkeep Handle W
  get_clock s =
      let (r, w) = start s.world in
      let s' = record s { world = w } in
      elim r [
        | err failed_to_spawn_upkeep_thread ↦ (could_not_spawn, s')
        | err upkeep_running ↦ (clock, s')
        | ok h ↦ set h s'
      ]

  -- A thread that runs is not started again, and runs on while its handle is held.
  module _ (Running : W → Type 0)
      (start_once : (w : W) (h : Handle) → Running w → (start w).0 ≢ ok h)
      (start_runs : (w : W) (h : Handle) → (start w).0 ≡ ok h → Running (start w).1)
      (start_keeps : (w : W) → Running w → Running (start w).1) where
    -- The thread whose handle is in the cell runs.
    abbrev pub IsHeld : Upkeep Handle W → Type 0
    IsHeld s = (h : Handle) → s.handle ≡ some h → Running s.world

    -- `get_clock` never panics, however often it is called: the cell is set by the one call that
    -- starts the thread, and the thread whose handle is in the cell runs from then on.
    pub get_clock-IsHeld :
        (s : Upkeep Handle W) → IsHeld s → ((get_clock s).0 ≢ panics) × IsHeld (get_clock s).1
    unfolding get_clock
    get_clock-IsHeld s held = elim (Result-cases (start s.world).0) [
      | inl (h, started) ↦ elim (Option-cases s.handle) [
        | inl empty ↦
            let after : Upkeep Handle W = record { handle = some h; world = (start s.world).1 } in
            let e : get_clock s ≡ (clock, after) = ground (arith, started, empty) in
            rw e ((λ c. cc), (λ h' same. start_runs s.world h started))
        | inr (h', full) ↦ absurd (start_once s.world h (held h' full) started)
      ]
      | inr (failed_to_spawn_upkeep_thread, bad) ↦
          let after : Upkeep Handle W = record s { world = (start s.world).1 } in
          let e : get_clock s ≡ (could_not_spawn, after) = ground (arith, bad) in
          rw e ((λ c. cc), (λ h full. start_keeps s.world (held h full)))
      | inr (upkeep_running, bad) ↦
          let after : Upkeep Handle W = record s { world = (start s.world).1 } in
          let e : get_clock s ≡ (clock, after) = ground (arith, bad) in
          rw e ((λ c. cc), (λ h full. start_keeps s.world (held h full)))
    ]
