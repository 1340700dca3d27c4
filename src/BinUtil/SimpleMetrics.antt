-- ===== src/BinUtil/SimpleMetrics.antt =====
-- crates/bin-util/src/lib.rs: the counters, each as the sum of its `add(1, ..)`; the attributes and the
-- names of the instruments are left out.
use axelar_relayer_core.Base.{ℕ, suc}

-- `SimpleMetrics`.
pub record SimpleMetrics : Type 0 where
  pub error_raised : ℕ
  pub skipped : ℕ

unfoldable pub new : SimpleMetrics
new = record { error_raised = 0; skipped = 0 }

unfoldable pub record_error : SimpleMetrics → SimpleMetrics
record_error m = record m { error_raised = suc m.error_raised }

unfoldable pub record_skipped : SimpleMetrics → SimpleMetrics
record_skipped m = record m { skipped = suc m.skipped }
