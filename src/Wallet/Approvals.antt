-- ===== src/Wallet/Approvals.antt =====
-- What holds of the requests of apps/extension-wallet/src/background/handlers/external/response-queue.ts.
use ancore.Common.{
  ℕ, Bool, true, false, ◌||◌, Option, none, some, List, [], ◌∷◌, ◌++◌, Text, codes, text_eq,
  text_beq, text_beq_iff, if◌then◌else◌, ◌≡◌, refl, sym, ap, ◌∙◌, subst, ◌⊎◌, ◌↔◌, inl, inr, arith,
  Bool-cases,
}
use ancore.Common.Table
use ancore.Common.Table.{Table, get-delete}
use ancore.Common.Table.Distinct.{Distinct}
use ancore.Wallet.ResponseQueue.{
  ApprovalQueueEntry, ResponseCallbackEntry, ResponseQueue, Answer, rejected_with, called,
  answer_request, is_stale, has_id, add_id, stale_ids, approval_time, callback_time, reject_all,
  sweep_stale_requests,
}

has-append :
    (id x : Text) (ids : List Text) → has_id id (ids ++ (x ∷ [])) ≡ (has_id id ids || text_beq x id)
has-append id x [] = ground arith
has-append id x (y ∷ ids) = ground (arith, has-append id x ids)

has-add : (id x : Text) (ids : List Text) → has_id id ids ≡ true → has_id id (add_id x ids) ≡ true
has-add id x ids h = ground (arith, has-append id x ids)

has-add_self : (id : Text) (ids : List Text) → has_id id (add_id id ids) ≡ true
has-add_self id ids = ground (arith, has-append id id ids, text_beq_iff id id)

has-add_from :
    (id x : Text) (ids : List Text)
    → has_id id (add_id x ids) ≡ true
    → (has_id id ids ≡ true) ⊎ (x ≡ id)
has-add_from id x ids h = ground (arith, has-append id x ids, text_beq_iff x id)

-- Ids that were added stay, and those of the stale entries are added.
module _ {V : Type 0} (timestamp : V → ℕ) (now ttl_ms : ℕ) where
  abbrev stale : V → Bool
  stale e = is_stale now ttl_ms (timestamp e)

  has-if :
      (id x : Text) (ids : List Text) (b : Bool)
      → has_id id ids ≡ true
      → has_id id (if b then add_id x ids else ids) ≡ true
  has-if id x ids true h = has-add id x ids h
  has-if id x ids false h = h

  stale_ids-keep :
      (m : Table Text V) (id : Text) (ids : List Text)
      → has_id id ids ≡ true
      → has_id id (stale_ids timestamp now ttl_ms m ids) ≡ true
  unfolding stale_ids
  stale_ids-keep [] id ids h = h
  stale_ids-keep ((x, e) ∷ m) id ids h =
      stale_ids-keep m id (if stale e then add_id x ids else ids) (has-if id x ids (stale e) h)

  stale_ids-has :
      (m : Table Text V) (id : Text) (e : V) (ids : List Text)
      → Table.get id m ≡ some e
      → stale e ≡ true
      → has_id id (stale_ids timestamp now ttl_ms m ids) ≡ true
  unfolding stale_ids Table.get
  stale_ids-has [] id e ids g s = cc
  stale_ids-has ((x, d) ∷ m) id e ids g s = elim (Bool-cases (text_beq x id)) [
    | inl same ↦
        let at : x ≡ id = (text_beq_iff x id).0 same in
        let here : d ≡ e = ground (arith, text_beq_iff x id) in
        stale_ids-keep m id (if stale d then add_id x ids else ids) (
          subst (λ b. has_id id (if b then add_id x ids else ids) ≡ true) (sym (ap stale here ∙ s))
            (subst (λ y. has_id y (add_id x ids) ≡ true) at (has-add_self x ids)))
    | inr other ↦
        stale_ids-has m id e (if stale d then add_id x ids else ids)
          (ground (arith, text_beq_iff x id)) s
  ]

  stale_ids-from :
      (m : Table Text V) (id : Text) (ids : List Text)
      → Distinct m
      → has_id id (stale_ids timestamp now ttl_ms m ids) ≡ true
      → (has_id id ids ≡ true) ⊎ ((e : V) × (Table.get id m ≡ some e) × (stale e ≡ true))
  unfolding stale_ids Table.get
  stale_ids-from [] id ids d h = inl h
  stale_ids-from ((x, e) ∷ m) id ids d h =
      elim (stale_ids-from m id (if stale e then add_id x ids else ids) d.1 h) [
        | inl g ↦ elim (Bool-cases (stale e)) [
          | inl s ↦
              elim (has-add_from id x ids
                (subst (λ b. has_id id (if b then add_id x ids else ids) ≡ true) s g)) [
                  | inl old ↦ inl old
                  | inr at ↦ inr (e, rw ((text_beq_iff x id).1 at) refl, s)
                ]
          | inr s ↦ inl (subst (λ b. has_id id (if b then add_id x ids else ids) ≡ true) s g)
        ]
        | inr (f, g, s) ↦ elim (Bool-cases (text_beq x id)) [
          | inl same ↦
              let at : x ≡ id = (text_beq_iff x id).0 same in
              absurd (let z : none ≡ some f = sym d.0 ∙ ap (λ y. Table.get y m) at ∙ g in cc)
          | inr other ↦ inr (f, rw other g, s)
        ]
      ]

reject_all-get :
    (ids : List Text) (q : ResponseQueue) (id : Text)
    → (Table.get id (reject_all ids q).pending_approvals
        ≡ (if has_id id ids then none else Table.get id q.pending_approvals))
      × (Table.get id (reject_all ids q).response_callbacks
          ≡ (if has_id id ids then none else Table.get id q.response_callbacks))
unfolding reject_all answer_request
reject_all-get [] q id = (refl, refl)
reject_all-get (x ∷ ids) q id =
    let next = answer_request x (rejected_with (codes "Request timed out")) q in
    let (a, c) = reject_all-get ids next id in
    (
      a ∙ both _ (has_id id ids) (text_beq x id) (get-delete id x q.pending_approvals),
      c ∙ both _ (has_id id ids) (text_beq x id) (get-delete id x q.response_callbacks),
    )
  where
    both :
        {V : Type 0} {v : Option V} (w : Option V) (b c : Bool)
        → v ≡ (if c then none else w)
        → (if b then none else v) ≡ (if c || b then none else w)
    both w true true e = refl
    both w true false e = refl
    both w false true e = e
    both w false false e = e

-- An approval or a callback of the id is stale.
abbrev pub Stale : ℕ → ℕ → Text → ResponseQueue → Type 0
Stale ttl_ms now id q =
    ((e : ApprovalQueueEntry) × (Table.get id q.pending_approvals ≡ some e)
      × (is_stale now ttl_ms e.timestamp ≡ true))
    ⊎ ((e : ResponseCallbackEntry) × (Table.get id q.response_callbacks ≡ some e)
        × (is_stale now ttl_ms e.registered_at ≡ true))

abbrev swept_ids : ℕ → ℕ → ResponseQueue → List Text
swept_ids ttl_ms now q =
    stale_ids callback_time now ttl_ms q.response_callbacks
      (stale_ids approval_time now ttl_ms q.pending_approvals [])

swept-Stale :
    (ttl_ms now : ℕ) (q : ResponseQueue) (id : Text)
    → Distinct q.pending_approvals
    → Distinct q.response_callbacks
    → (has_id id (swept_ids ttl_ms now q) ≡ true) ↔ Stale ttl_ms now id q
swept-Stale ttl_ms now q id da dc = (from, to)
  where
    from : has_id id (swept_ids ttl_ms now q) ≡ true → Stale ttl_ms now id q
    from h = elim (stale_ids-from callback_time now ttl_ms q.response_callbacks id _ dc h) [
      | inr c ↦ inr c
      | inl g ↦ elim (stale_ids-from approval_time now ttl_ms q.pending_approvals id [] da g) [
        | inr a ↦ inl a
        | inl n ↦ absurd cc
      ]
    ]

    to : Stale ttl_ms now id q → has_id id (swept_ids ttl_ms now q) ≡ true
    to (inl (e, g, s)) =
        stale_ids-keep callback_time now ttl_ms q.response_callbacks id _
          (stale_ids-has approval_time now ttl_ms q.pending_approvals id e [] g s)
    to (inr (e, g, s)) = stale_ids-has callback_time now ttl_ms q.response_callbacks id e _ g s

-- A sweep drops the requests of which the approval or the callback is stale, and leaves every other
-- one as it is.
pub sweep_stale_requests_lem :
    (ttl_ms now : ℕ) (q : ResponseQueue) (id : Text)
    → Distinct q.pending_approvals
    → Distinct q.response_callbacks
    → let q' = (sweep_stale_requests ttl_ms now q).1 in
      (Stale ttl_ms now id q
        → (Table.get id q'.pending_approvals ≡ none) × (Table.get id q'.response_callbacks ≡ none))
      × ((Stale ttl_ms now id q → ⊥)
          → (Table.get id q'.pending_approvals ≡ Table.get id q.pending_approvals)
            × (Table.get id q'.response_callbacks ≡ Table.get id q.response_callbacks))
unfolding sweep_stale_requests
sweep_stale_requests_lem ttl_ms now q id da dc =
    let (a, c) = reject_all-get (swept_ids ttl_ms now q) q id in
    let named_ = swept-Stale ttl_ms now q id da dc in
    (
      λ s.
          let n = named_.1 s in
          (
            a ∙ ap (λ b. if b then none else Table.get id q.pending_approvals) n,
            c ∙ ap (λ b. if b then none else Table.get id q.response_callbacks) n,
          ),
      λ not_stale. elim (Bool-cases (has_id id (swept_ids ttl_ms now q))) [
        | inl y ↦ absurd (not_stale (named_.0 y))
        | inr n ↦ (
          a ∙ ap (λ b. if b then none else Table.get id q.pending_approvals) n,
          c ∙ ap (λ b. if b then none else Table.get id q.response_callbacks) n,
        )
      ],
    )

-- A callback is called at most once: a second answer to a request calls none.
pub answer_request_twice :
    (id : Text) (first second : Answer) (q : ResponseQueue)
    → (answer_request id second (answer_request id first q)).answered
      ≡ (answer_request id first q).answered
unfolding answer_request
answer_request_twice id first second q =
    let gone : Table.get id (Table.delete id q.response_callbacks) ≡ none =
      ground (arith, get-delete id id q.response_callbacks, text_beq_iff id id) in
    ap (λ o. called o second (called (Table.get id q.response_callbacks) first q.answered)) gone
