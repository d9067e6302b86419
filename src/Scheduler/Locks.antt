-- ===== src/Scheduler/Locks.antt =====
-- The locks of services/relayer/src/scheduler/ScheduledTransferStore.ts, and the loop of
-- ScheduledTransferService.ts that takes and releases them.
use ancore.Common.{
  ℕ, true, false, ◌||◌, Option, List, [], ◌∷◌, ◌++◌, ◌≡◌, refl, ◌∙◌, ◌↔◌, inl, inr, ℤ, ◌==◌, length,
  arith, nat_eq, Option-cases,
}
use ancore.Common.Table
use ancore.Relay.Types.{RelayExecuteRequest, RelayExecuteResponse}
use ancore.Queue.Backoff.{Random}
use ancore.Scheduler.Transfers.{ScheduledTransfer}
use ancore.Scheduler.TransferStore.{
  ScheduledTransferStore, has, add, remove, runs, try_acquire_processing, release_processing,
  is_processing, append_execution, update_after_execution, list_due,
}
use ancore.Scheduler.Service.{
  Draw, relay_request, conclude, execute_transfer, process_one, process_all, process_due_transfers,
}

has-add :
    (i j : ℕ) (ids : List ℕ) → has i ids ≡ false → has j (ids ++ (i ∷ [])) ≡ (has j ids || i == j)
unfolding has
has-add i j [] h = ground arith
has-add i j (k ∷ ids) h = ground (arith, has-add i j ids)

remove-absent : (i : ℕ) (ids : List ℕ) → has i ids ≡ false → remove i ids ≡ ids
unfolding has remove
remove-absent i [] h = refl
remove-absent i (k ∷ ids) h = ground (arith, remove-absent i ids)

remove-append : (i : ℕ) (ids : List ℕ) → has i ids ≡ false → remove i (ids ++ (i ∷ [])) ≡ ids
unfolding has remove
remove-append i [] h = ground arith
remove-append i (k ∷ ids) h = ground (arith, remove-append i ids)

remove-add : (i : ℕ) (ids : List ℕ) → has i ids ≡ false → remove i (add i ids) ≡ ids
unfolding add
remove-add i ids h = ground (arith, remove-append i ids h)

has_self : (i : ℕ) (ids : List ℕ) → has i ids ≡ false → has i (add i ids) ≡ true
unfolding add
has_self i ids h = ground (arith, has-add i i ids h)

-- A lock is given exactly where the transfer is active and not locked. Then a second attempt fails,
-- with no change, and a release leaves the locks as they were.
pub try_acquire_processing_lem :
    (id : ℕ) (s : ScheduledTransferStore)
    → let (acquired, s') = try_acquire_processing id s in
      ((acquired ≡ true)
        ↔ ((is_processing id s ≡ false) × (runs (Table.get id s.transfers) ≡ true)))
      × (acquired ≡ true
          → (try_acquire_processing id s' ≡ (false, s')) × (release_processing id s' ≡ s))
      × (acquired ≡ false → s' ≡ s)
unfolding try_acquire_processing release_processing is_processing
try_acquire_processing_lem id s =
    ground (arith, remove-add id s.processing, has_self id s.processing)

conclude-processing :
    (t : ScheduledTransfer) (r : RelayExecuteResponse) (random : Random) (id now stamp : ℕ)
    (s : ScheduledTransferStore)
    → (conclude t r random id now stamp s).processing ≡ s.processing
unfolding conclude update_after_execution append_execution
conclude-processing t r random id now stamp s = ground arith

module _ {W : Type 0}
    (execute_relay : W → RelayExecuteRequest → Option ℤ → Option RelayExecuteResponse × W) where
  execute_transfer-processing :
      (t : ScheduledTransfer) (d : Draw) (now : ℕ) (s : ScheduledTransferStore) (w : W)
      → (execute_transfer execute_relay t d now s w).1.processing ≡ s.processing
  unfolding execute_transfer
  execute_transfer-processing t d now s w =
      let (req, signed_nonce) = relay_request t s in
      elim (Option-cases (execute_relay w req signed_nonce).0) [
        | inl e ↦ ground arith
        | inr (r, e) ↦ ground (arith, conclude-processing t r d.random d.log_id now d.stamp s)
      ]

  process_one-processing :
      (t : ScheduledTransfer) (d : Draw) (now : ℕ) (s : ScheduledTransferStore) (w : W)
      → (process_one execute_relay t d now s w).1.processing ≡ s.processing
  unfolding process_one try_acquire_processing release_processing
  process_one-processing t d now s w = ground (
    arith,
    execute_transfer-processing t d now (try_acquire_processing t.id s).1 w,
    remove-add t.id s.processing,
  )

  process_all-processing :
      (ts : List ScheduledTransfer) (draw : ℕ → Draw) (now : ℕ) (s : ScheduledTransferStore) (w : W)
      → (process_all execute_relay ts draw now s w).1.processing ≡ s.processing
  unfolding process_all
  process_all-processing [] draw now s w = refl
  process_all-processing (t ∷ ts) draw now s w =
      process_all-processing ts draw now _ _ ∙ process_one-processing t (draw (length ts)) now s w

  -- A pass over the due transfers leaves the locks as they were, whether the relay service responds
  -- or throws.
  pub process_due_transfers-processing :
      (draw : ℕ → Draw) (now : ℕ) (s : ScheduledTransferStore) (w : W)
      → (process_due_transfers execute_relay draw now s w).1.processing ≡ s.processing
  unfolding process_due_transfers
  process_due_transfers-processing draw now s w =
      process_all-processing (list_due now s) draw now s w
