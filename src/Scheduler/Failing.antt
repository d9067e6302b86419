-- ===== src/Scheduler/Failing.antt =====
-- A scheduled transfer whose executions fail one after another.
use ancore.Common.{
  ℕ, zero, suc, min, true, false, none, some, ltb, if◌then◌else◌, ◌≡◌, refl, subst, ap, ◌∙◌, arith,
  nat_eq, Bool-cases, inl, inr,
}
use ancore.Common.Table
use ancore.Relay.Types.{RelayExecuteResponse}
use ancore.Queue.Backoff.{Random}
use ancore.Scheduler.Transfers.{active, failed, ScheduledTransfer, is_active}
use ancore.Scheduler.TransferStore.{ScheduledTransferStore, patched}
use ancore.Scheduler.Service.{is_once, patch_of_failure, conclude, max_consecutive_failures}
use ancore.Scheduler.Budget.{patch_of, conclude-get}

-- What an execution reads from outside.
pub record Execution : Type 0 where
  pub response : RelayExecuteResponse
  pub random : Random
  pub log_id : ℕ
  pub now : ℕ
  pub stamp : ℕ

-- An execution of the transfer as it is stored, if it is active.
unfoldable execute_stored : ℕ → Execution → ScheduledTransferStore → ScheduledTransferStore
execute_stored id x s = elim (Table.get id s.transfers) [
  | none ↦ s
  | some t ↦
      if is_active t.status then conclude t x.response x.random x.log_id x.now x.stamp s else s
]

unfoldable pub execute_times :
    ℕ → (ℕ → Execution) → ℕ → ScheduledTransferStore → ScheduledTransferStore
unfolding execute_stored
execute_times id x zero s = s
execute_times id x (suc n) s = execute_stored id (x n) (execute_times id x n s)

-- A transfer that has failed `n` times in a row.
record Failed (id n : ℕ) (u : ScheduledTransfer) : Type 0 where
  pub same_id : u.id ≡ id
  pub recurs : is_once u.frequency ≡ false
  pub counted : u.consecutive_failures ≡ min n max_consecutive_failures
  pub status_is : u.status ≡ (if ltb n max_consecutive_failures then active else failed)

patched-Failed :
    (id n : ℕ) (x : Execution) (u : ScheduledTransfer)
    → Failed id n u
    → is_active u.status ≡ true
    → x.response.success ≡ false
    → Failed id (suc n) (patched (patch_of u x.response x.random x.now) x.stamp u)
unfolding patch_of_failure
patched-Failed id n x u f on bad = record {
  same_id = f.same_id;
  recurs = f.recurs;
  counted = ground (arith, f.counted, f.status_is, f.recurs);
  status_is = ground (arith, f.counted, f.status_is, f.recurs);
}

idle-Failed :
    (id n : ℕ) (u : ScheduledTransfer)
    → Failed id n u
    → is_active u.status ≡ false
    → Failed id (suc n) u
idle-Failed id n u f off = record {
  same_id = f.same_id;
  recurs = f.recurs;
  counted = ground (arith, f.counted, f.status_is);
  status_is = ground (arith, f.counted, f.status_is);
}

module _ (id : ℕ) (x : ℕ → Execution) (bad : (k : ℕ) → (x k).response.success ≡ false) where
  execute_stored-Failed :
      (n : ℕ) (s : ScheduledTransferStore) (u : ScheduledTransfer)
      → Table.get id s.transfers ≡ some u
      → Failed id n u
      → (v : ScheduledTransfer) × (Table.get id (execute_stored id (x n) s).transfers ≡ some v)
        × Failed id (suc n) v
  unfolding execute_stored
  execute_stored-Failed n s u h f = elim (Bool-cases (is_active u.status)) [
    | inr off ↦ (u, rw (h, execute_stored, off) h, idle-Failed id n u f off)
    | inl on ↦
        let r = (x n).response in
        let v = patched (patch_of u r (x n).random (x n).now) (x n).stamp u in
        let at : Table.get u.id s.transfers ≡ some u =
          ap (λ i. Table.get i s.transfers) f.same_id ∙ h in
        let after = conclude-get u r (x n).random (x n).log_id (x n).now (x n).stamp s u at in
        (
          v,
          rw (h, execute_stored, on)
              (subst
                (λ i.
                  Table.get i
                    (conclude u r (x n).random (x n).log_id (x n).now (x n).stamp s).transfers
                  ≡ some v)
                f.same_id after),
          patched-Failed id n (x n) u f on (bad n),
        )
  ]

  execute_times-Failed :
      (n : ℕ) (s : ScheduledTransferStore) (t : ScheduledTransfer)
      → Table.get id s.transfers ≡ some t
      → Failed id 0 t
      → (u : ScheduledTransfer) × (Table.get id (execute_times id x n s).transfers ≡ some u)
        × Failed id n u
  unfolding execute_times
  execute_times-Failed zero s t h f = (t, h, f)
  execute_times-Failed (suc n) s t h f =
      let (u, g, f') = execute_times-Failed n s t h f in
      execute_stored-Failed n (execute_times id x n s) u g f'

  -- A recurring transfer that is active and has just succeeded, or is new, stays active for four
  -- executions in a row that fail, and has failed for good with the fifth: after `n` of them it has
  -- counted each up to five, and no further one is made.
  pub execute_times-failed :
      (n : ℕ) (s : ScheduledTransferStore) (t : ScheduledTransfer)
      → Table.get id s.transfers ≡ some t
      → t.id ≡ id
      → t.status ≡ active
      → is_once t.frequency ≡ false
      → t.consecutive_failures ≡ 0
      → (u : ScheduledTransfer) × (Table.get id (execute_times id x n s).transfers ≡ some u)
        × (u.consecutive_failures ≡ min n 5)
        × (u.status ≡ (if ltb n 5 then active else failed))
  execute_times-failed n s t h i a r z =
      let (u, g, f) =
        execute_times-Failed n s t h
          (record { same_id = i; recurs = r; counted = z ∙ refl; status_is = a }) in
      (u, g, f.counted, f.status_is)
