-- ===== src/Scheduler/Transfers.antt =====
-- services/relayer/src/scheduler/schemas.ts, the types. A time is its number of milliseconds, as in
-- `Date`. An id is a fresh UUID, which is only compared with others: here a
-- number.
use ancore.Common.{ℕ, Bool, true, false, Option, Text}
use ancore.Relay.Types.{OperationType, Parameters}
use ancore.Scheduler.ScheduleUtils.{ScheduleFrequency}

pub data ScheduledTransferStatus : Type 0 where
  active paused cancelled completed failed : ScheduledTransferStatus

pub record RelayPayload : Type 0 where
  pub session_key : Text
  pub operation : OperationType
  pub parameters : Parameters
  pub signature : Text
  pub nonce : ℕ

pub record CreateScheduledTransferInput : Type 0 where
  pub account_address : Text
  pub to : Text
  pub amount : Text
  pub asset : Text
  pub frequency : ScheduleFrequency
  pub start_at : ℕ
  pub end_at : Option ℕ
  pub note : Option Text
  pub relay_payload : RelayPayload

pub record ScheduledTransfer : Type 0 where
  pub id : ℕ
  pub account_id : Text
  pub caller_id : Text
  pub to : Text
  pub amount : Text
  pub asset : Text
  pub frequency : ScheduleFrequency
  pub status : ScheduledTransferStatus
  pub start_at : ℕ
  pub next_run_at : ℕ
  pub end_at : Option ℕ
  pub note : Option Text
  pub user_approved_at : ℕ
  pub relay_payload : RelayPayload
  pub consecutive_failures : ℕ
  pub created_at : ℕ
  pub updated_at : ℕ
  pub last_execution_at : Option ℕ

-- `error` is the error's message.
pub data ScheduledExecutionOutcome : Type 0 where
  succeeded failed_run : ScheduledExecutionOutcome

pub record ScheduledTransferExecutionLog (M : Type 0) : Type 0 where
  pub id : ℕ
  pub scheduled_transfer_id : ℕ
  pub executed_at : ℕ
  pub outcome : ScheduledExecutionOutcome
  pub transaction_id : Option Text
  pub error : Option M

abbrev pub is_active : ScheduledTransferStatus → Bool
is_active active = true
is_active _ = false

-- The states that `cancel` leaves alone.
abbrev pub is_over : ScheduledTransferStatus → Bool
is_over cancelled = true
is_over completed = true
is_over failed = true
is_over _ = false
