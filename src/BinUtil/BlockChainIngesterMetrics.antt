-- ===== src/BinUtil/BlockChainIngesterMetrics.antt =====
-- crates/bin-util/src/lib.rs: the counters, each as the sum of its `add(1, ..)`; the attributes and the
-- names of the instruments are left out.
use axelar_relayer_core.Base.{ℕ, suc}

pub record BlockChainIngesterMetrics : Type 0 where
  pub gateway_tx_received_task : ℕ
  pub execute_received_task : ℕ
  pub verify_received_task : ℕ
  pub refund_received_task : ℕ
  pub construct_proof_received_task : ℕ
  pub gateway_tx_approved_task : ℕ
  pub executed_task : ℕ
  pub verified_stak : ℕ
  pub refunded_task : ℕ
  pub constructed_proof_task : ℕ
  pub error_raised : ℕ
  pub skipped_task : ℕ

unfoldable pub new : BlockChainIngesterMetrics
new = record {
  gateway_tx_received_task = 0;
  execute_received_task = 0;
  verify_received_task = 0;
  refund_received_task = 0;
  construct_proof_received_task = 0;
  gateway_tx_approved_task = 0;
  executed_task = 0;
  verified_stak = 0;
  refunded_task = 0;
  constructed_proof_task = 0;
  error_raised = 0;
  skipped_task = 0;
}

unfoldable pub record_gateway_tx_received : BlockChainIngesterMetrics → BlockChainIngesterMetrics
record_gateway_tx_received m = record m {
  gateway_tx_received_task = suc m.gateway_tx_received_task;
}

unfoldable pub record_execute_received : BlockChainIngesterMetrics → BlockChainIngesterMetrics
record_execute_received m = record m { execute_received_task = suc m.execute_received_task }

unfoldable pub record_verify_received : BlockChainIngesterMetrics → BlockChainIngesterMetrics
record_verify_received m = record m { verify_received_task = suc m.verify_received_task }

unfoldable pub record_refund_received : BlockChainIngesterMetrics → BlockChainIngesterMetrics
record_refund_received m = record m { refund_received_task = suc m.refund_received_task }

unfoldable pub record_construct_proof_received :
    BlockChainIngesterMetrics → BlockChainIngesterMetrics
record_construct_proof_received m = record m {
  construct_proof_received_task = suc m.construct_proof_received_task;
}

unfoldable pub record_gateway_tx_approved : BlockChainIngesterMetrics → BlockChainIngesterMetrics
record_gateway_tx_approved m = record m {
  gateway_tx_approved_task = suc m.gateway_tx_approved_task;
}

unfoldable pub record_executed : BlockChainIngesterMetrics → BlockChainIngesterMetrics
record_executed m = record m { executed_task = suc m.executed_task }

unfoldable pub record_verified : BlockChainIngesterMetrics → BlockChainIngesterMetrics
record_verified m = record m { verified_stak = suc m.verified_stak }

unfoldable pub record_refunded : BlockChainIngesterMetrics → BlockChainIngesterMetrics
record_refunded m = record m { refunded_task = suc m.refunded_task }

unfoldable pub record_constructed_proof : BlockChainIngesterMetrics → BlockChainIngesterMetrics
record_constructed_proof m = record m { constructed_proof_task = suc m.constructed_proof_task }

unfoldable pub record_error : BlockChainIngesterMetrics → BlockChainIngesterMetrics
record_error m = record m { error_raised = suc m.error_raised }

unfoldable pub record_skipped : BlockChainIngesterMetrics → BlockChainIngesterMetrics
record_skipped m = record m { skipped_task = suc m.skipped_task }
