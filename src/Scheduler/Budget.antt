-- ===== src/Scheduler/Budget.antt =====
-- What the operations of services/relayer/src/scheduler/ScheduledTransferService.ts make of a
-- transfer, in any order.
use ancore.Common.{
  ℕ, ◌<◌, true, false, some, Text, ◌≡◌, subst, inl, inr, if◌then◌else◌, arith, Bool-cases,
  Option-cases, text_beq_iff, nat_eq,
}
use ancore.Common.Table
use ancore.Common.Table.{Table, get-set, get-set_self, set-all}
use ancore.Relay.Types.{RelayExecuteResponse}
use ancore.Queue.Backoff.{Random}
use ancore.Scheduler.ScheduleUtils.{compute_next_run_at}
use ancore.Scheduler.Transfers.{
  ScheduledTransferStatus, paused, cancelled, ScheduledTransfer, CreateScheduledTransferInput,
  is_active, is_over,
}
use ancore.Scheduler.TransferStore.{
  ScheduledTransferStore, empty, Patch, patched, has, runs, get_by_id_for_caller, update_status,
  append_execution, update_after_execution, list_executions, try_acquire_processing,
  release_processing, new_transfer,
}
use ancore.Scheduler.TransferStore
use ancore.Scheduler.Service.{
  create, pause, cancel, is_once, patch_of_success, patch_of_failure, conclude,
  max_consecutive_failures,
}

-- The patch that `conclude` writes.
abbrev pub patch_of : ScheduledTransfer → RelayExecuteResponse → Random → ℕ → Patch
patch_of t r random now =
    if r.success then patch_of_success t now else patch_of_failure t random now

-- What `conclude` leaves of the transfer.
pub conclude-get :
    (t : ScheduledTransfer) (r : RelayExecuteResponse) (random : Random) (id now stamp : ℕ)
    (s : ScheduledTransferStore) (u : ScheduledTransfer)
    → Table.get t.id s.transfers ≡ some u
    → Table.get t.id (conclude t r random id now stamp s).transfers
      ≡ some (patched (patch_of t r random now) stamp u)
unfolding conclude update_after_execution append_execution
conclude-get t r random id now stamp s u h =
    ground (arith, get-set_self t.id (patched (patch_of t r random now) stamp u) s.transfers)

-- A transfer that has not ended has failed fewer than five times in a row, and none that runs once
-- has failed before.
pub record TransferInv (t : ScheduledTransfer) : Type 0 where
  pub budget : is_over t.status ≡ false → t.consecutive_failures < max_consecutive_failures
  pub once_clean :
      is_once t.frequency ≡ true → is_over t.status ≡ false → t.consecutive_failures ≡ 0

abbrev pub AllInv : Table ℕ ScheduledTransfer → Type 0
AllInv m = (id : ℕ) (t : ScheduledTransfer) → Table.get id m ≡ some t → TransferInv t

abbrev pub Inv : ScheduledTransferStore → Type 0
Inv s = AllInv s.transfers

patched-TransferInv :
    (t : ScheduledTransfer) (r : RelayExecuteResponse) (random : Random) (now stamp : ℕ)
    (u : ScheduledTransfer)
    → u.frequency ≡ t.frequency
    → TransferInv (patched (patch_of t r random now) stamp u)
unfolding patch_of_success patch_of_failure compute_next_run_at
patched-TransferInv t r random now stamp u f = record {
  budget = ground arith;
  once_clean = ground arith;
}

set-AllInv :
    (id : ℕ) (v : ScheduledTransfer) (m : Table ℕ ScheduledTransfer)
    → TransferInv v
    → AllInv m
    → AllInv (Table.set id v m)
set-AllInv id v m tv inv = set-all (λ _ w. TransferInv w) id v m inv tv

-- A step of the service, with the relay service outside. `concluded` is the end of an execution: the
-- transfer may have been read long before.
pub data Step : ScheduledTransferStore → ScheduledTransferStore → Type 0 where
  created :
      {s : ScheduledTransferStore} (input : CreateScheduledTransferInput) (caller_id : Text)
      (id now : ℕ)
      → Step s (create input caller_id id now s).1
  pausing :
      {s : ScheduledTransferStore} (id : ℕ) (caller_id : Text) (stamp : ℕ)
      → Step s (pause id caller_id stamp s).1
  cancelling :
      {s : ScheduledTransferStore} (id : ℕ) (caller_id : Text) (stamp : ℕ)
      → Step s (cancel id caller_id stamp s).1
  acquired : {s : ScheduledTransferStore} (id : ℕ) → Step s (try_acquire_processing id s).1
  released : {s : ScheduledTransferStore} (id : ℕ) → Step s (release_processing id s)
  concluded :
      {s : ScheduledTransferStore} (t u : ScheduledTransfer) (r : RelayExecuteResponse)
      (random : Random) (id now stamp : ℕ)
      → Table.get t.id s.transfers ≡ some u
      → u.frequency ≡ t.frequency
      → Step s (conclude t r random id now stamp s)

pub data Steps : ScheduledTransferStore → ScheduledTransferStore → Type 0 where
  here : {s : ScheduledTransferStore} → Steps s s
  next : {s s' s'' : ScheduledTransferStore} → Steps s s' → Step s' s'' → Steps s s''

update_status-Inv :
    (id : ℕ) (status : ScheduledTransferStatus) (stamp : ℕ) (s : ScheduledTransferStore)
    → ((t : ScheduledTransfer)
        → Table.get id s.transfers ≡ some t
        → TransferInv (record t { status = status; updated_at = stamp }))
    → Inv s
    → Inv (update_status id status stamp s).1
unfolding update_status
update_status-Inv id status stamp s new inv = elim (Option-cases (Table.get id s.transfers)) [
  | inl e ↦ rw (e, update_status) inv
  | inr (t, e) ↦
      rw (e, update_status)
        (set-AllInv id (record t { status = status; updated_at = stamp }) s.transfers (new t e) inv)
]

-- A transfer that a caller gets is the caller's.
pub for_caller :
    (id : ℕ) (caller_id : Text) (s : ScheduledTransferStore) (t : ScheduledTransfer)
    → get_by_id_for_caller id caller_id s ≡ some t
    → (Table.get id s.transfers ≡ some t) × (t.caller_id ≡ caller_id)
unfolding get_by_id_for_caller
for_caller id caller_id s t h = elim (Option-cases (Table.get id s.transfers)) [
  | inl e ↦ absurd (ground arith)
  | inr (u, e) ↦ ground (arith, text_beq_iff u.caller_id caller_id)
]

pause-Inv :
    (id : ℕ) (caller_id : Text) (stamp : ℕ) (s : ScheduledTransferStore)
    → Inv s
    → Inv (pause id caller_id stamp s).1
unfolding pause
pause-Inv id caller_id stamp s inv = elim (Option-cases (get_by_id_for_caller id caller_id s)) [
  | inl e ↦ rw (e, pause) inv
  | inr (t, e) ↦ elim (Bool-cases (is_active t.status)) [
    | inl a ↦
        rw (e, pause, a)
          (update_status-Inv id paused stamp s
            (λ u h. record {
              budget = ground (arith, (inv id u h).budget, for_caller id caller_id s t e);
              once_clean = ground (arith, (inv id u h).once_clean, for_caller id caller_id s t e);
            })
            inv)
    | inr a ↦ rw (e, pause, a) inv
  ]
]

cancel-Inv :
    (id : ℕ) (caller_id : Text) (stamp : ℕ) (s : ScheduledTransferStore)
    → Inv s
    → Inv (cancel id caller_id stamp s).1
unfolding cancel
cancel-Inv id caller_id stamp s inv = elim (Option-cases (get_by_id_for_caller id caller_id s)) [
  | inl e ↦ rw (e, cancel) inv
  | inr (t, e) ↦ elim (Bool-cases (is_over t.status)) [
    | inl a ↦ rw (e, cancel, a) inv
    | inr a ↦
        rw (e, cancel, a)
          (update_status-Inv id cancelled stamp s
            (λ u h. record { budget = ground arith; once_clean = ground arith }) inv)
  ]
]

conclude-Inv :
    (t u : ScheduledTransfer) (r : RelayExecuteResponse) (random : Random) (id now stamp : ℕ)
    (s : ScheduledTransferStore)
    → Table.get t.id s.transfers ≡ some u
    → u.frequency ≡ t.frequency
    → Inv s
    → Inv (conclude t r random id now stamp s)
unfolding conclude update_after_execution append_execution
conclude-Inv t u r random id now stamp s h f inv =
    let v = patched (patch_of t r random now) stamp u in
    subst AllInv {x = Table.set t.id v s.transfers} (ground (arith, h))
      (set-AllInv t.id v s.transfers (patched-TransferInv t r random now stamp u f) inv)

try_acquire_processing-Inv :
    (id : ℕ) (s : ScheduledTransferStore) → Inv s → Inv (try_acquire_processing id s).1
unfolding try_acquire_processing
try_acquire_processing-Inv id s inv = subst AllInv {x = s.transfers} (ground arith) inv

Step-Inv : {s s' : ScheduledTransferStore} → Step s s' → Inv s → Inv s'
unfolding create TransferStore.create new_transfer release_processing
Step-Inv {s} (created input caller_id id now) inv =
    set-AllInv id (new_transfer input caller_id id now) s.transfers
      (record { budget = ground arith; once_clean = ground arith }) inv
Step-Inv {s} (pausing id caller_id stamp) inv = pause-Inv id caller_id stamp s inv
Step-Inv {s} (cancelling id caller_id stamp) inv = cancel-Inv id caller_id stamp s inv
Step-Inv {s} (acquired id) inv = try_acquire_processing-Inv id s inv
Step-Inv (released id) inv = inv
Step-Inv {s} (concluded t u r random id now stamp h f) inv =
    conclude-Inv t u r random id now stamp s h f inv

-- In every store that the service reaches from the empty one, whatever the order of the requests and
-- of the ends of executions, a transfer that has not ended has failed fewer than five times in a row,
-- and has not failed before if it runs once.
pub reachable-TransferInv : {s : ScheduledTransferStore} → Steps empty s → Inv s
unfolding Table.get
reachable-TransferInv here id t h = ground arith
reachable-TransferInv (next steps step) id t h = Step-Inv step (reachable-TransferInv steps) id t h
