-- ===== src/Connector/Kinds.antt =====
-- internal/connector/errors.go, with `permanent` and `retryable` of internal/engine/pipeline.go.
use crm_bisync.Prelude.{◌≡◌, true, false, arith}
use crm_bisync.Connector.{Failure, answered, can_retry, is_not_found}

-- A failure that is no answer of the peer is worth another attempt, and never says that a record
-- is gone.
pub unanswered_is_transient :
    (e : Failure) → answered e ≡ false → (can_retry e ≡ true) × (is_not_found e ≡ false)
unfolding answered can_retry is_not_found
unanswered_is_transient e h = ground arith
