-- ===== src/Payout/B2b/Sound.antt =====
-- What a step of a B2B payout does to the tables, and that it keeps the invariant and what is paid
-- (services/payout.go: `SendB2B`, `HandleB2BResult`, `HandleB2BTimeout`).
use zyranet_api.Base.{
  ℕ, ◌≡◌, ◌≢◌, refl, ap, sym, not, ◌∙◌, Bool, true, false, ◌&&◌, Option, none, some, List, [], ◌∷◌,
  arith, ◌==◌, update_where, Bool-cases, inl, inr, subst,
}
use zyranet_api.Payout.Rows.{Status, pending, completed, Payout, PayDb, update_row, transition_row}
use zyranet_api.Payout.States.{PayEnv, transition, is_pending, is_processing}
use zyranet_api.Payout.Invariant.{
  IsSound, status_of, is_live, status_of-updated_ne, status_of-updated_kept,
}
use zyranet_api.Payout.Laws.{updated-IsSound, given_up-IsSound, released}
use zyranet_api.Payout.Settled.{StaysPaid, released-claimed_by}
use zyranet_api.Payout.B2b.Relabel.{relabelled-IsSound, status_of-relabelled}
use zyranet_api.Payout.B2b.Send.{update_rows}

-- One step of the tables: nothing, an update that leaves every status, a conditional change of one
-- payout's status, one that gives the payout's payments back too, or one that puts the payout `back`
-- to pending.
pub data Moves (back : Option ℕ) (db : PayDb) : PayDb → Type 0 where
  stays : Moves back db db
  relabels :
      (test : Payout → Bool) (u : Payout → Payout)
      → ((p : Payout) → (u p).id ≡ p.id)
      → ((p : Payout) → (u p).status ≡ p.status)
      → Moves back db (record db { payouts = update_where test u db.payouts })
  changes :
      (i : ℕ) (from : Status → Bool) (to : Status) (u : Payout → Payout)
      → from completed ≡ false
      → is_live (some to) ≡ true
      → is_pending to ≡ false
      → ((p : Payout) → (u p).id ≡ p.id)
      → ((p : Payout) → (u p).status ≡ to)
      → Moves back db
          (record db { payouts = update_where (λ p. p.id == i && from p.status) u db.payouts })
  gives_up :
      (i : ℕ) (from : Status → Bool) (u : Payout → Payout)
      → from completed ≡ false
      → status_of i db.payouts ≢ some completed
      → ((p : Payout) → (u p).id ≡ p.id)
      → ((p : Payout) → is_pending (u p).status ≡ false)
      → Moves back db (record db {
        payouts = update_where (λ p. p.id == i && from p.status) u db.payouts;
        payments = released i db.payments;
      })
  goes_back :
      (i : ℕ) (u : Payout → Payout)
      → back ≡ some i
      → ((p : Payout) → (u p).id ≡ p.id)
      → ((p : Payout) → (u p).status ≡ pending)
      → Moves back db (record db {
        payouts = update_where (λ p. p.id == i && is_processing p.status) u db.payouts;
      })

pub Moves-IsSound :
    (back : Option ℕ) (db db' : PayDb) → Moves back db db' → IsSound db → IsSound db'
Moves-IsSound back db _ stays v = v
Moves-IsSound back db _ (relabels test u same_id same_status) v =
    relabelled-IsSound test u same_id same_status db v
Moves-IsSound back db _ (changes i from to u skip live gone keep target) v =
    updated-IsSound i from u db keep (λ p. rw (target p) live) v
Moves-IsSound back db _ (gives_up i from u skip unpaid keep target) v =
    given_up-IsSound i from u db keep v
Moves-IsSound back db _ (goes_back i u this keep target) v =
    updated-IsSound i is_processing u db keep (λ p. rw (target p) refl) v

updated_kept :
    (i j : ℕ) (from : Status → Bool) (u : Payout → Payout) (xs : List Payout) (st : Status)
    → ((p : Payout) → (u p).id ≡ p.id)
    → from st ≡ false
    → status_of i xs ≡ some st
    → status_of i (update_where (λ p. p.id == j && from p.status) u xs) ≡ some st
updated_kept i j from u xs st keep skip h = elim (Bool-cases (i == j)) [
  | inl same ↦
      let this : i ≡ j = ground arith in
      rw this (
        status_of-updated_kept j from u keep xs st (subst (λ k. status_of k xs ≡ some st) this h)
          skip)
  | inr other ↦ status_of-updated_ne j from u keep i xs (ground arith) ∙ h
]

pub Moves-StaysPaid :
    (back : Option ℕ) (db db' : PayDb) (i : ℕ)
    → Moves back db db'
    → status_of i db.payouts ≡ some completed
    → StaysPaid i db db'
Moves-StaysPaid back db _ i stays h = record { status = h; payments = refl }
Moves-StaysPaid back db _ i (relabels test u same_id same_status) h = record {
  status = status_of-relabelled test u same_id same_status i db.payouts ∙ h;
  payments = refl;
}
Moves-StaysPaid back db _ i (changes j from to u skip live gone keep target) h = record {
  status = updated_kept i j from u db.payouts completed keep skip h;
  payments = refl;
}
Moves-StaysPaid back db _ i (goes_back j u this keep target) h = record {
  status = updated_kept i j is_processing u db.payouts completed keep refl h;
  payments = refl;
}
Moves-StaysPaid back db _ i (gives_up j from u skip unpaid keep target) h = record {
  status = updated_kept i j from u db.payouts completed keep skip h;
  payments =
      released-claimed_by i j db.payments
        (λ e. unpaid (subst (λ k. status_of k db.payouts ≡ some completed) e h));
}

-- A payout that is no longer waiting to be sent.
abbrev pub is_sent : Option Status → Bool
is_sent none = false
is_sent (some st) = not (is_pending st)

pub updated-is_sent :
    (i j : ℕ) (from : Status → Bool) (u : Payout → Payout) (xs : List Payout)
    → ((p : Payout) → (u p).id ≡ p.id)
    → ((p : Payout) → is_pending (u p).status ≡ false)
    → is_sent (status_of j xs) ≡ true
    → is_sent (status_of j (update_where (λ p. p.id == i && from p.status) u xs)) ≡ true
updated-is_sent i j from u [] keep gone h = h
updated-is_sent i j from u (x ∷ xs) keep gone h =
    ground (arith, keep x, gone x, updated-is_sent i j from u xs keep gone)

-- Only the payout that is put back waits again.
pub Moves-is_sent :
    (back : Option ℕ) (db db' : PayDb) (j : ℕ)
    → Moves back db db'
    → back ≢ some j
    → is_sent (status_of j db.payouts) ≡ true
    → is_sent (status_of j db'.payouts) ≡ true
Moves-is_sent back db _ j stays n h = h
Moves-is_sent back db _ j (relabels test u same_id same_status) n h =
    rw (status_of-relabelled test u same_id same_status j db.payouts) h
Moves-is_sent back db _ j (changes i from to u skip live gone keep target) n h =
    updated-is_sent i j from u db.payouts keep (λ p. rw (target p) gone) h
Moves-is_sent back db _ j (gives_up i from u skip unpaid keep target) n h =
    updated-is_sent i j from u db.payouts keep target h
Moves-is_sent back db _ j (goes_back i u this keep target) n h =
    rw (status_of-updated_ne i is_processing u keep j db.payouts (λ e. n (this ∙ ap some (sym e))))
      h

pub update_rows-Moves :
    (env : PayEnv) (back : Option ℕ) (test : Payout → Bool) (u : Payout → Payout) (db : PayDb)
    → ((p : Payout) → (u p).id ≡ p.id)
    → ((p : Payout) → (u p).status ≡ p.status)
    → Moves back db (update_rows env test u db)
update_rows-Moves env back test u db same_id same_status =
    elim (Bool-cases (env.fails update_row)) [
      | inl failing ↦ rw failing stays
      | inr works ↦ rw works (relabels test u same_id same_status)
    ]

pub transition-Moves :
    (env : PayEnv) (back : Option ℕ) (i : ℕ) (from : Status → Bool) (to : Status)
    (u : Payout → Payout) (db : PayDb)
    → from completed ≡ false
    → is_live (some to) ≡ true
    → is_pending to ≡ false
    → ((p : Payout) → (u p).id ≡ p.id)
    → ((p : Payout) → (u p).status ≡ to)
    → Moves back db (transition env i from u db).1
transition-Moves env back i from to u db skip live gone keep target =
    elim (Bool-cases (env.fails transition_row)) [
      | inl failing ↦ rw failing stays
      | inr works ↦ rw works (changes i from to u skip live gone keep target)
    ]
