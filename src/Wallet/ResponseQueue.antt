-- ===== src/Wallet/ResponseQueue.antt =====
-- apps/extension-wallet/src/background/handlers/external/response-queue.ts. `answered` has the calls of
-- the callbacks in their order, the last first. The session storage does not fail. Params and results
-- are texts.
use ancore.Common.{
  ℕ, ◌+◌, Bool, false, ◌||◌, Option, none, some, List, [], ◌∷◌, ◌++◌, Text, codes, text_eq,
  text_beq, if◌then◌else◌, ltb, length,
}
use ancore.Common.Table
use ancore.Common.Table.{Table}

pub record ApprovalQueueEntry : Type 0 where
  pub request_id : Text
  pub origin : Text
  pub method : Text
  pub params : Text
  pub timestamp : ℕ

-- A call of `resolve` with the result, or of `reject` with the message.
pub data Answer : Type 0 where
  resolved_with rejected_with : Text → Answer

pub data SessionStatus : Type 0 where
  pending : SessionStatus
  settled : Answer → SessionStatus

-- A callback is told by its time of registration and a name.
pub record ResponseCallbackEntry : Type 0 where
  pub callback : ℕ
  pub registered_at : ℕ

pub record ResponseQueue : Type 0 where
  pub pending_approvals : Table Text ApprovalQueueEntry
  pub response_callbacks : Table Text ResponseCallbackEntry
  pub session_entries : Table Text SessionStatus
  pub answered : List (ℕ × Answer)

abbrev pub default_approval_ttl_ms : ℕ
default_approval_ttl_ms = 300000

abbrev pub no_requests : ResponseQueue
no_requests = record {
  pending_approvals = [];
  response_callbacks = [];
  session_entries = [];
  answered = [];
}

-- The callback is called, if there is one.
abbrev pub called : Option ResponseCallbackEntry → Answer → List (ℕ × Answer) → List (ℕ × Answer)
called none a log = log
called (some c) a log = (c.callback, a) ∷ log

-- `resolveRequest` and `rejectRequest`, by the answer. A callback that is not there is not deleted.
unfoldable pub answer_request : Text → Answer → ResponseQueue → ResponseQueue
answer_request id a q = record {
  pending_approvals = Table.delete id q.pending_approvals;
  response_callbacks = Table.delete id q.response_callbacks;
  session_entries = Table.set id (settled a) q.session_entries;
  answered = called (Table.get id q.response_callbacks) a q.answered;
}

unfoldable pub remove_approval : Text → ResponseQueue → ResponseQueue
remove_approval id q = record q { pending_approvals = Table.delete id q.pending_approvals }

unfoldable pub get_approval : Text → ResponseQueue → Option ApprovalQueueEntry
get_approval id q = Table.get id q.pending_approvals

unfoldable pub get_session_entry : Text → ResponseQueue → Option SessionStatus
get_session_entry id q = Table.get id q.session_entries

unfoldable pub clear_session_entry : Text → ResponseQueue → ResponseQueue
clear_session_entry id q = record q { session_entries = Table.delete id q.session_entries }

-- `now - timestamp > ttlMs`
abbrev pub is_stale : ℕ → ℕ → ℕ → Bool
is_stale now ttl_ms timestamp = ltb (timestamp + ttl_ms) now

-- The ids of a `Set`, in the order in which they are added.
abbrev pub has_id : Text → List Text → Bool
has_id id [] = false
has_id id (x ∷ ids) = text_beq x id || has_id id ids

abbrev pub add_id : Text → List Text → List Text
add_id id ids = if has_id id ids then ids else ids ++ (id ∷ [])

-- The two loops over the entries, which differ in the table alone.
unfoldable pub stale_ids {κ} : {V : Type κ} → (V → ℕ) → ℕ → ℕ → Table Text V → List Text → List Text
stale_ids timestamp now ttl_ms [] ids = ids
stale_ids timestamp now ttl_ms ((id, e) ∷ m) ids =
    stale_ids timestamp now ttl_ms m
      (if is_stale now ttl_ms (timestamp e) then add_id id ids else ids)

abbrev pub approval_time : ApprovalQueueEntry → ℕ
approval_time e = e.timestamp

abbrev pub callback_time : ResponseCallbackEntry → ℕ
callback_time e = e.registered_at

unfoldable pub reject_all : List Text → ResponseQueue → ResponseQueue
unfolding answer_request
reject_all [] q = q
reject_all (id ∷ ids) q =
    reject_all ids (answer_request id (rejected_with (codes "Request timed out")) q)

unfoldable pub sweep_stale_requests : ℕ → ℕ → ResponseQueue → ℕ × ResponseQueue
unfolding stale_ids reject_all
sweep_stale_requests ttl_ms now q =
    let ids =
      stale_ids callback_time now ttl_ms q.response_callbacks
        (stale_ids approval_time now ttl_ms q.pending_approvals []) in
    (length ids, reject_all ids q)

unfoldable pub enqueue_approval : Text → Text → Text → Text → ℕ → ResponseQueue → ResponseQueue
unfolding sweep_stale_requests
enqueue_approval id origin method params now q =
    let swept = (sweep_stale_requests default_approval_ttl_ms now q).1 in
    record {
      pending_approvals =
          Table.set id
            (record {
              request_id = id;
              origin = origin;
              method = method;
              params = params;
              timestamp = now;
            })
            swept.pending_approvals;
      response_callbacks = swept.response_callbacks;
      session_entries = Table.set id pending swept.session_entries;
      answered = swept.answered;
    }

unfoldable pub register_response_callbacks : Text → ℕ → ℕ → ResponseQueue → ResponseQueue
unfolding sweep_stale_requests
register_response_callbacks id callback now q =
    let swept = (sweep_stale_requests default_approval_ttl_ms now q).1 in
    record swept {
      response_callbacks =
          Table.set id (record { callback = callback; registered_at = now })
            swept.response_callbacks;
    }
