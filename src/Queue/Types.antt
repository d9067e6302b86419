-- ===== src/Queue/Types.antt =====
-- services/relayer/src/queue/types.ts. A time stamp is its number of milliseconds: the ISO texts
-- of the source all have the one format of `toISOString`, whose order is that of the times. A job
-- id is a fresh UUID, which is only compared with others and never empty: here a number.
use ancore.Common.{ℕ, Bool, true, false, Option, Text}

pub data JobStatus : Type 0 where
  pending processing completed failed dead : JobStatus

pub data JobType : Type 0 where
  relay_execute add_session_key revoke_session_key : JobType

pub record Job (P : Type 0) : Type 0 where
  pub id : ℕ
  pub idempotency_key : Text
  pub type : JobType
  pub payload : P
  pub request_id : Option Text
  pub status : JobStatus
  pub attempts : ℕ
  pub max_attempts : ℕ
  pub created_at : ℕ
  pub updated_at : ℕ
  pub retry_after : Option ℕ
  pub last_error : Option Text

pub record EnqueueOptions (P : Type 0) : Type 0 where
  pub idempotency_key : Text
  pub type : JobType
  pub payload : P
  pub max_attempts : Option ℕ
  pub request_id : Option Text

abbrev pub is_pending : JobStatus → Bool
is_pending pending = true
is_pending _ = false

abbrev pub is_dead : JobStatus → Bool
is_dead dead = true
is_dead _ = false

-- `JobQueue.isTerminal`
abbrev pub is_terminal : JobStatus → Bool
is_terminal completed = true
is_terminal dead = true
is_terminal _ = false
