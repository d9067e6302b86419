-- ===== src/Wallet/Approved.antt =====
-- Which sites are approved: the allowlist against the last word on each site.
use ancore.Common.{
  ℕ, Bool, true, false, not, none, List, [], ◌∷◌, ◌++◌, Text, text_beq, text_beq_iff, text_eq,
  filter, ◌&&◌, if◌then◌else◌, ◌≡◌, refl, ap, ◌∙◌, arith, inl, inr, Bool-cases, Option-cases,
}
use ancore.Common.Table
use ancore.Common.Table.{Table, get-set, get-delete}
use ancore.Wallet.Allowlist.{
  AllowlistState, includes_origin, account_sites, get_approved_list, is_approved, put_approved,
  approve, revoke, revoke_all,
}

includes-append :
    (o x : Text) (os : List Text)
    → includes_origin o (os ++ (x ∷ [])) ≡ (if text_beq x o then true else includes_origin o os)
includes-append o x [] = ground arith
includes-append o x (y ∷ os) = ground (arith, includes-append o x os)

includes-filter :
    (o x : Text) (os : List Text)
    → includes_origin o (filter (λ site. not (text_beq site x)) os)
      ≡ (if text_beq x o then false else includes_origin o os)
includes-filter o x [] = ground arith
includes-filter o x (y ∷ os) =
    ground (arith, includes-filter o x os, text_beq_iff x o, text_beq_iff y o, text_beq_iff y x)

-- The list of an account and network after another one was put.
pub list-put_approved :
    (a n a' n' : Text) (origins : List Text) (s t : AllowlistState)
    → t.approved_sites ≡ put_approved s a n origins
    → get_approved_list t a' n'
      ≡ (if text_beq a a' && text_beq n n' then origins else get_approved_list s a' n')
unfolding get_approved_list put_approved
list-put_approved a n a' n' origins s t h =
    let outer = get-set a' a (Table.set n origins (account_sites s a)) s.approved_sites in
    let inner = get-set n' n origins (account_sites s a) in
    let same = text_beq_iff a a' in ground (arith, h, outer, inner, same)

-- What can be done to the allowlist.
pub data Action : Type 0 where
  approves : ℕ → Text → Text → Text → Action
  revokes : Text → Text → Text → Action
  revokes_all : Text → Text → Action

abbrev pub act : Action → AllowlistState → AllowlistState
act (approves now o a n) s = approve now o a n s
act (revokes o a n) s = revoke o a n s
act (revokes_all a n) s = revoke_all a n s

abbrev names : Text → Text → Text → Text → Text → Text → Bool
names o a n o' a' n' = text_beq o o' && (text_beq a a' && text_beq n n')

-- What an action says of a site that was approved or not before.
abbrev pub word : Action → Text → Text → Text → Bool → Bool
word (approves now o a n) o' a' n' b = if names o a n o' a' n' then true else b
word (revokes o a n) o' a' n' b = if names o a n o' a' n' then false else b
word (revokes_all a n) o' a' n' b = if text_beq a a' && text_beq n n' then false else b

is_approved-approve :
    (now : ℕ) (o a n o' a' n' : Text) (s : AllowlistState)
    → is_approved (approve now o a n s) o' a' n'
      ≡ (if names o a n o' a' n' then true else is_approved s o' a' n')
unfolding is_approved approve
is_approved-approve now o a n o' a' n' s =
    let old = get_approved_list s a n in
    elim (Bool-cases (includes_origin o old)) [ inl e ↦ already e | inr e ↦ added e ]
  where
    already :
        includes_origin o (get_approved_list s a n) ≡ true
        → includes_origin o' (get_approved_list (approve now o a n s) a' n')
          ≡ (if names o a n o' a' n' then true else includes_origin o' (get_approved_list s a' n'))
    already e = elim (Bool-cases (names o a n o' a' n')) [
      | inl m ↦
          let same_o : o ≡ o' = (text_beq_iff o o').0 (ground (arith, m)) in
          let same_a : a ≡ a' = (text_beq_iff a a').0 (ground (arith, m)) in
          let same_n : n ≡ n' = (text_beq_iff n n').0 (ground (arith, m)) in
          let e' : includes_origin o' (get_approved_list s a' n') ≡ true =
            cc (e, same_o, same_a, same_n) in
          rw (m, e) e'
      | inr m ↦ rw (m, e) refl
    ]

    added :
        includes_origin o (get_approved_list s a n) ≡ false
        → includes_origin o' (get_approved_list (approve now o a n s) a' n')
          ≡ (if names o a n o' a' n' then true else includes_origin o' (get_approved_list s a' n'))
    added e =
        let t = approve now o a n s in
        let origins = get_approved_list s a n ++ (o ∷ []) in
        let list = list-put_approved a n a' n' origins s t (rw e refl) in
        let appended = includes-append o' o (get_approved_list s a n) in
        let same_a = text_beq_iff a a' in
        let same_n = text_beq_iff n n' in ap (includes_origin o') list ∙ split appended
      where
        split :
            includes_origin o' (get_approved_list s a n ++ (o ∷ []))
              ≡ (if text_beq o o' then true else includes_origin o' (get_approved_list s a n))
            → includes_origin o' (
                if text_beq a a' && text_beq n n'
                then get_approved_list s a n ++ (o ∷ [])
                else get_approved_list s a' n')
              ≡ (if names o a n o' a' n'
                  then true
                  else includes_origin o' (get_approved_list s a' n'))
        split h = ground (arith, h, text_beq_iff a a', text_beq_iff n n')

is_approved-revoke :
    (o a n o' a' n' : Text) (s : AllowlistState)
    → is_approved (revoke o a n s) o' a' n'
      ≡ (if names o a n o' a' n' then false else is_approved s o' a' n')
unfolding is_approved revoke
is_approved-revoke o a n o' a' n' s =
    elim (Bool-cases (includes_origin o (get_approved_list s a n))) [
      | inl e ↦ removed e
      | inr e ↦ absent e
    ]
  where
    absent :
        includes_origin o (get_approved_list s a n) ≡ false
        → includes_origin o' (get_approved_list (revoke o a n s) a' n')
          ≡ (if names o a n o' a' n' then false else includes_origin o' (get_approved_list s a' n'))
    absent e = elim (Bool-cases (names o a n o' a' n')) [
      | inl m ↦
          let same_o : o ≡ o' = (text_beq_iff o o').0 (ground (arith, m)) in
          let same_a : a ≡ a' = (text_beq_iff a a').0 (ground (arith, m)) in
          let same_n : n ≡ n' = (text_beq_iff n n').0 (ground (arith, m)) in
          let e' : includes_origin o' (get_approved_list s a' n') ≡ false =
            cc (e, same_o, same_a, same_n) in
          rw (m, e) e'
      | inr m ↦ rw (m, e) refl
    ]

    removed :
        includes_origin o (get_approved_list s a n) ≡ true
        → includes_origin o' (get_approved_list (revoke o a n s) a' n')
          ≡ (if names o a n o' a' n' then false else includes_origin o' (get_approved_list s a' n'))
    removed e =
        let origins = filter (λ site. not (text_beq site o)) (get_approved_list s a n) in
        let list = list-put_approved a n a' n' origins s (revoke o a n s) (rw e refl) in
        ap (includes_origin o') list ∙ split (includes-filter o' o (get_approved_list s a n))
      where
        split :
            includes_origin o' (filter (λ site. not (text_beq site o)) (get_approved_list s a n))
              ≡ (if text_beq o o' then false else includes_origin o' (get_approved_list s a n))
            → includes_origin o' (
                if text_beq a a' && text_beq n n'
                then filter (λ site. not (text_beq site o)) (get_approved_list s a n)
                else get_approved_list s a' n')
              ≡ (if names o a n o' a' n'
                  then false
                  else includes_origin o' (get_approved_list s a' n'))
        split h = ground (arith, h, text_beq_iff a a', text_beq_iff n n')

is_approved-revoke_all :
    (a n o' a' n' : Text) (s : AllowlistState)
    → is_approved (revoke_all a n s) o' a' n'
      ≡ (if text_beq a a' && text_beq n n' then false else is_approved s o' a' n')
unfolding is_approved revoke_all get_approved_list
is_approved-revoke_all a n o' a' n' s =
    let outer = get-set a' a (Table.delete n (account_sites s a)) s.approved_sites in
    let inner = get-delete n' n (account_sites s a) in
    let same_a = text_beq_iff a a' in
    let same_n = text_beq_iff n n' in
    elim (Option-cases (Table.get n (account_sites s a))) [
      | inl e ↦ absent e
      | inr (origins, e) ↦ ground (arith, e, outer, inner, same_a, same_n)
    ]
  where
    absent :
        Table.get n (account_sites s a) ≡ none
        → is_approved (revoke_all a n s) o' a' n'
          ≡ (if text_beq a a' && text_beq n n' then false else is_approved s o' a' n')
    absent e = elim (Bool-cases (text_beq a a' && text_beq n n')) [
      | inl m ↦
          let same_a : a ≡ a' = (text_beq_iff a a').0 (ground (arith, m)) in
          let same_n : n ≡ n' = (text_beq_iff n n').0 (ground (arith, m)) in
          let e' : Table.get n' (account_sites s a') ≡ none = cc (e, same_a, same_n) in
          rw m (ground (arith, e, e'))
      | inr m ↦ rw m (ground (arith, e))
    ]

is_approved-act :
    (c : Action) (o a n : Text) (s : AllowlistState)
    → is_approved (act c s) o a n ≡ word c o a n (is_approved s o a n)
is_approved-act (approves now o' a' n') o a n s = is_approved-approve now o' a' n' o a n s
is_approved-act (revokes o' a' n') o a n s = is_approved-revoke o' a' n' o a n s
is_approved-act (revokes_all a' n') o a n s = is_approved-revoke_all a' n' o a n s

abbrev pub run : List Action → AllowlistState → AllowlistState
run [] s = s
run (c ∷ cs) s = run cs (act c s)

abbrev pub last_word : List Action → Text → Text → Text → Bool → Bool
last_word [] o a n b = b
last_word (c ∷ cs) o a n b = last_word cs o a n (word c o a n b)

-- After any approvals and revocations, a site is approved for an account on a network exactly by the
-- last of them that names it, and what names other sites, accounts and networks changes nothing.
pub run-is_approved :
    (cs : List Action) (o a n : Text) (s : AllowlistState)
    → is_approved (run cs s) o a n ≡ last_word cs o a n (is_approved s o a n)
run-is_approved [] o a n s = refl
run-is_approved (c ∷ cs) o a n s =
    run-is_approved cs o a n (act c s) ∙ ap (last_word cs o a n) (is_approved-act c o a n s)
