-- ===== src/Integration/Config/Units.antt =====
-- In which units the configuration of config.rs reads its intervals.
use axelar_relayer_core.Base.{ℕ, ◌*◌, ◌^◌, ◌<◌, ◌≡◌, ap, some, arith}
use axelar_relayer_core.Base.Decimal.{decimal}
use axelar_relayer_core.Retry.Defs.{from_secs}
use axelar_relayer_core.AmplifierApi.TxEvent.Parse.{parse_usize-decimal}
use axelar_relayer_core.Integration.Config.{
  seconds, parse_chains_poll_interval, parse_healthcheck_interval, duration_ms_decode,
}

-- An argument is a number of seconds.
pub parse_interval-decimal :
    (n : ℕ)
    → n < 2 ^ 64
    → (parse_chains_poll_interval (decimal n) ≡ some (from_secs n))
      × (parse_healthcheck_interval (decimal n) ≡ some (from_secs n))
unfolding parse_chains_poll_interval parse_healthcheck_interval
parse_interval-decimal n fits = let read = ap (seconds) (parse_usize-decimal n fits) in (read, read)

-- The same duration is written by a number in a file of settings that is a thousand times that of
-- an argument.
pub decode_thousandfold :
    (n : ℕ)
    → n * 1000 < 2 ^ 64
    → duration_ms_decode (n * 1000) ≡ parse_chains_poll_interval (decimal n)
unfolding duration_ms_decode
decode_thousandfold n fits = ground (arith, (parse_interval-decimal n (omega arith)).0)
