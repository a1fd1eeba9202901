-- ===== src/Payout/B2b/Starts.antt =====
-- What the start of a B2B payout may do (services/payout.go, `SendB2B`).
use zyranet_api.Base.{
  ℕ, ◌≡◌, refl, ap, ◌∙◌, false, not, ◌&&◌, Option, none, some, List, arith, ◌==◌, update_where,
  find_first, Bool-cases, inl, inr, ◌⊎◌, count_where,
}
use zyranet_api.Mpesa.Creds.{Creds, MpesaConfig, Setting}
use zyranet_api.Payout.Rows.{
  Status, pending, processing, completed, failed, cancelled, Payout, PayDb, find_payout,
  find_setting, transition_row,
}
use zyranet_api.Payout.States.{PayEnv, is_pending, transition}
use zyranet_api.Payout.Invariant.{status_of}
use zyranet_api.Payout.B2b.{SendError, SendResult, ready, stopped, Outside, Ready, prepare}
use zyranet_api.Payout.B2b.Send.{Request, start_b2b, start_row, take_out, sent_now}
use zyranet_api.Payout.B2b.Once.{status_of-found}

-- A request leaves only for a payout that was pending, and takes it out of there.
pub record Started (id staff_id : ℕ) (db : PayDb) (r : Request) (db' : PayDb) : Type 0 where
  pub this : r.payout_id ≡ id
  pub was : status_of id db.payouts ≡ some pending
  pub after : db' ≡ record db {
    payouts = update_where (λ p. p.id == id && is_pending p.status) (sent_now staff_id) db.payouts;
  }

abbrev pub StartCases : ℕ → ℕ → PayDb → SendResult Request × PayDb → Type 0
StartCases id staff_id db r =
    ((e : SendError) × (r ≡ (stopped e, db)))
    ⊎ ((q : Request) × (r ≡ (ready q, r.1)) × Started id staff_id db q r.1)

take_out-cases :
    (env : PayEnv) (r : Ready) (p : Payout) (id staff_id : ℕ) (db : PayDb)
    → status_of id db.payouts ≡ some pending
    → StartCases id staff_id db
        (take_out env r id p (transition env id is_pending (sent_now staff_id) db) db)
take_out-cases env r p id staff_id db was = elim (Bool-cases (env.fails transition_row)) [
  | inl failing ↦ rw failing (inl (_, refl))
  | inr works ↦
      elim (Bool-cases (count_where (λ p. p.id == id && is_pending p.status) db.payouts == 1)) [
        | inl one ↦
            rw works (rw one (inr (_, refl, record { this = refl; was = was; after = refl })))
        | inr missed ↦ rw works (rw missed (inl (_, refl)))
      ]
]

is_pending→pending : (st : Status) → not (is_pending st) ≡ false → st ≡ pending
is_pending→pending pending h = refl
is_pending→pending processing h = absurd (ground arith)
is_pending→pending completed h = absurd (ground arith)
is_pending→pending failed h = absurd (ground arith)
is_pending→pending cancelled h = absurd (ground arith)

start_row-cases :
    (env : PayEnv) (prepared : SendResult Ready) (id staff_id : ℕ) (o : Option Payout) (db : PayDb)
    → find_first (λ p. p.id == id) db.payouts ≡ o
    → StartCases id staff_id db (start_row env prepared id staff_id o db)
start_row-cases env prepared id staff_id none db found = inl (_, refl)
start_row-cases env (stopped e) id staff_id (some p) db found =
    elim (Bool-cases (not (is_pending p.status))) [
      | inl sent ↦ rw sent (inl (_, refl))
      | inr waits ↦ rw waits (inl (_, refl))
    ]
start_row-cases env (ready r) id staff_id (some p) db found =
    elim (Bool-cases (not (is_pending p.status))) [
      | inl sent ↦ rw sent (inl (_, refl))
      | inr waits ↦
          let was =
            status_of-found id db.payouts p found ∙ ap some (is_pending→pending p.status waits) in
          rw waits (take_out-cases env r p id staff_id db was)
    ]

pub start_b2b-cases :
    (env : PayEnv) (cfg : MpesaConfig) (out : Outside) (creds : Creds) (settings : List Setting)
    (id staff_id : ℕ) (db : PayDb)
    → StartCases id staff_id db (start_b2b env cfg out creds settings id staff_id db)
unfolding start_b2b
start_b2b-cases env cfg out creds settings id staff_id db =
    elim (Bool-cases (env.fails find_payout)) [
      | inl failing ↦ rw (start_b2b, failing) (inl (_, refl))
      | inr works ↦
          rw (start_b2b, works)
            (start_row-cases env (prepare cfg out creds (env.fails find_setting) settings) id
              staff_id _ db refl)
    ]
