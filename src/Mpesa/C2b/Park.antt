-- ===== src/Mpesa/C2b/Park.antt =====
-- Parking a confirmation (services/c2b_verify.go: `ParkC2B`, `ParkStaleC2BVerifications`;
-- handlers/c2b_match.go: `c2bAlreadyRecorded`).
use zyranet_api.Base.{
  ℕ, ◌-◌, ◌≡◌, refl, Bool, true, false, not, ◌&&◌, ◌||◌, List, [], ◌∷◌, ◌++◌, ◌==◌, ltb,
  if◌then◌else◌, select, count_where, update_where, exists_where, arith, Bool-cases, inl, inr,
  first_rows,
}
use zyranet_api.Int.{ℤ}
use zyranet_api.Text.{Text, bytes, text_eq, trim_space, text_eq_refl}
use zyranet_api.Payout.States.{truncate}
use zyranet_api.Utils.Phone.{format_phone}
use zyranet_api.Mpesa.C2b.{C2bTransaction, C2bStatus, received, verifying, credited, parked}

pub record Unmatched : Type 0 where
  pub trans_id : Text
  pub phone : Text
  pub amount : ℤ
  pub bill_ref_number : Text
  pub business_short_code : Text
  pub first_name : Text
  pub last_name : Text
  pub status : Text
  pub verification : Text
  pub note : Text

-- The receipts of a payment.
pub record Receipts : Type 0 where
  pub receipt_number : Text
  pub transaction_id : Text

pub record C2bDb : Type 0 where
  pub transactions : List C2bTransaction
  pub unmatched : List Unmatched
  pub receipts : List Receipts

pub data C2bStmt : Type 0 where
  update_transaction insert_unmatched find_stale count_receipts count_unmatched : C2bStmt

abbrev pub is_undecided : C2bStatus → Bool
is_undecided received = true
is_undecided verifying = true
is_undecided credited = false
is_undecided parked = false

abbrev pub is_undecided_row : C2bTransaction → C2bTransaction → Bool
is_undecided_row l r = r.id == l.id && is_undecided r.status

abbrev pub unmatched_of : C2bTransaction → Text → Unmatched
unmatched_of l note = record {
  trans_id = l.trans_id;
  phone = format_phone l.msisdn;
  amount = l.amount;
  bill_ref_number = l.bill_ref_number;
  business_short_code = l.business_short_code;
  first_name = l.first_name;
  last_name = trim_space (l.middle_name ++ 32 ∷ l.last_name);
  status = bytes "pending";
  verification = bytes "unverified";
  note = note;
}

abbrev pub is_queued : Text → Unmatched → Bool
is_queued trans_id u = text_eq u.trans_id trans_id

-- An insert that does nothing on a transaction that is queued already.
abbrev pub queue : C2bTransaction → Text → C2bDb → C2bDb
queue l note db =
    if exists_where (is_queued l.trans_id) db.unmatched
    then db
    else record db { unmatched = db.unmatched ++ unmatched_of l note ∷ [] }

module _ (now : ℕ) (fails : C2bStmt → Bool) where
  abbrev pub park_row : Text → C2bTransaction → C2bTransaction
  park_row note r = record r { status = parked; verify_note = note; updated_at = now }

  -- `l` is the row as it was read.
  unfoldable pub park_c2b : C2bTransaction → Text → C2bDb → C2bDb
  park_c2b l note db =
      if fails update_transaction
        || count_where (is_undecided_row l) db.transactions == 0
        || fails insert_unmatched
      then db
      else queue l (truncate note 500) (record db {
        transactions =
            update_where (is_undecided_row l) (park_row (truncate note 500)) db.transactions;
      })

  abbrev pub park_each : Text → List C2bTransaction → C2bDb → C2bDb
  park_each note [] db = db
  park_each note (l ∷ ls) db = park_each note ls (park_c2b l note db)

  -- At most a hundred confirmations whose check never came back.
  unfoldable pub park_stale_c2b_verifications : ℕ → Text → C2bDb → C2bDb
  park_stale_c2b_verifications older_than note db =
      if fails find_stale
      then db
      else park_each note
          (first_rows 100 (
            select (λ r. is_undecided r.status && ltb r.updated_at (now - older_than))
              db.transactions))
          db

  -- A count that fails reads as zero.
  unfoldable pub c2b_already_recorded : Text → C2bDb → Bool
  c2b_already_recorded trans_id db =
      (not (fails count_receipts)
        && exists_where
            (λ r. text_eq r.receipt_number trans_id || text_eq r.transaction_id trans_id)
            db.receipts)
      || (not (fails count_unmatched) && exists_where (is_queued trans_id) db.unmatched)

none_undecided :
    (now : ℕ) (fails : C2bStmt → Bool) (l : C2bTransaction) (note : Text)
    (rows : List C2bTransaction)
    → count_where
        (is_undecided_row l)
        (update_where (is_undecided_row l) (park_row now fails note) rows)
      ≡ 0
none_undecided now fails l note [] = refl
none_undecided now fails l note (r ∷ rows) = ground (arith, none_undecided now fails l note rows)

queued_after :
    (l : C2bTransaction) (note : Text) (db : C2bDb)
    → exists_where (is_queued l.trans_id) (queue l note db).unmatched ≡ true
queued_after l note db = elim (Bool-cases (exists_where (is_queued l.trans_id) db.unmatched)) [
  | inl already ↦ rw already already
  | inr new ↦ rw new (at_the_end db.unmatched)
]
  where
    at_the_end :
        (us : List Unmatched)
        → exists_where (is_queued l.trans_id) (us ++ unmatched_of l note ∷ []) ≡ true
    at_the_end [] = ground (arith, text_eq_refl l.trans_id)
    at_the_end (u ∷ us) = ground (arith, at_the_end us)

queue-transactions :
    (l : C2bTransaction) (note : Text) (db : C2bDb)
    → (queue l note db).transactions ≡ db.transactions
queue-transactions l note db = ground arith

-- What parking leaves of an undecided confirmation.
abbrev parked_db : ℕ → (C2bStmt → Bool) → C2bTransaction → Text → C2bDb → C2bDb
parked_db now fails l note db = queue l (truncate note 500) (record db {
  transactions =
      update_where (is_undecided_row l) (park_row now fails (truncate note 500)) db.transactions;
})

park_c2b_open :
    (now : ℕ) (fails : C2bStmt → Bool) (l : C2bTransaction) (note : Text) (db : C2bDb)
    → fails update_transaction ≡ false
    → fails insert_unmatched ≡ false
    → (count_where (is_undecided_row l) db.transactions == 0) ≡ false
    → park_c2b now fails l note db ≡ parked_db now fails l note db
unfolding park_c2b
park_c2b_open now fails l note db updates inserts undecided =
    rw (park_c2b, updates, undecided, inserts) refl

park_c2b_decided :
    (now : ℕ) (fails : C2bStmt → Bool) (l : C2bTransaction) (note : Text) (db : C2bDb)
    → count_where (is_undecided_row l) db.transactions ≡ 0
    → park_c2b now fails l note db ≡ db
unfolding park_c2b
park_c2b_decided now fails l note db none_left = elim (Bool-cases (fails update_transaction)) [
  | inl failing ↦ rw (park_c2b, failing) refl
  | inr works ↦ rw (park_c2b, works, none_left) refl
]

queued_recorded :
    (now : ℕ) (fails : C2bStmt → Bool) (trans_id : Text) (db : C2bDb)
    → fails count_unmatched ≡ false
    → exists_where (is_queued trans_id) db.unmatched ≡ true
    → c2b_already_recorded now fails trans_id db ≡ true
unfolding c2b_already_recorded
queued_recorded now fails trans_id db counts queued = ground arith

-- Confirmations parked one after the other, each at a time and with failing statements of its own.
abbrev pub park_all : List ((ℕ × (C2bStmt → Bool)) × (C2bTransaction × Text)) → C2bDb → C2bDb
park_all [] db = db
park_all (((now, fails), (l, note)) ∷ calls) db = park_all calls (park_c2b now fails l note db)

append_queued :
    (trans_id : Text) (us : List Unmatched) (u : Unmatched)
    → exists_where (is_queued trans_id) us ≡ true
    → exists_where (is_queued trans_id) (us ++ u ∷ []) ≡ true
append_queued trans_id [] u h = absurd (ground arith)
append_queued trans_id (x ∷ us) u h = ground (arith, append_queued trans_id us u)

park_c2b_queued :
    (now : ℕ) (fails : C2bStmt → Bool) (l : C2bTransaction) (note trans_id : Text) (db : C2bDb)
    → exists_where (is_queued trans_id) db.unmatched ≡ true
    → exists_where (is_queued trans_id) (park_c2b now fails l note db).unmatched ≡ true
unfolding park_c2b
park_c2b_queued now fails l note trans_id db h =
    ground (arith, append_queued trans_id db.unmatched (unmatched_of l (truncate note 500)))

park_all_queued :
    (calls : List ((ℕ × (C2bStmt → Bool)) × (C2bTransaction × Text))) (trans_id : Text) (db : C2bDb)
    → exists_where (is_queued trans_id) db.unmatched ≡ true
    → exists_where (is_queued trans_id) (park_all calls db).unmatched ≡ true
park_all_queued [] trans_id db h = h
park_all_queued (((now, fails), (l, note)) ∷ calls) trans_id db h =
    park_all_queued calls trans_id (park_c2b now fails l note db)
      (park_c2b_queued now fails l note trans_id db h)

-- A confirmation that was still undecided, parked with nothing failing: to park it again, whatever the
-- note and whatever fails then, changes nothing; and after any further confirmations are parked, the
-- test that a delivery of a confirmation is put to finds it recorded, where the count of parked ones
-- does not fail.
pub park_c2b_records :
    (now now' : ℕ) (fails fails' : C2bStmt → Bool) (l : C2bTransaction) (note note' : Text)
    (calls : List ((ℕ × (C2bStmt → Bool)) × (C2bTransaction × Text))) (db : C2bDb)
    → fails update_transaction ≡ false
    → fails insert_unmatched ≡ false
    → (count_where (is_undecided_row l) db.transactions == 0) ≡ false
    → fails' count_unmatched ≡ false
    → (c2b_already_recorded now' fails' l.trans_id (park_all calls (park_c2b now fails l note db))
        ≡ true)
      × (park_c2b now' fails' l note' (park_c2b now fails l note db) ≡ park_c2b now fails l note db)
park_c2b_records now now' fails fails' l note note' calls db updates inserts undecided counts =
    let after = parked_db now fails l note db in
    let first = park_c2b_open now fails l note db updates inserts undecided in
    let none_left : count_where (is_undecided_row l) after.transactions ≡ 0 =
      rw
        (queue-transactions l (truncate note 500) (record db {
          transactions =
              update_where (is_undecided_row l) (park_row now fails (truncate note 500))
                db.transactions;
        }))
        (none_undecided now fails l (truncate note 500) db.transactions) in
    rw first (
      queued_recorded now' fails' l.trans_id (park_all calls after) counts
          (park_all_queued calls l.trans_id after (queued_after l (truncate note 500) _)),
      park_c2b_decided now' fails' l note' after none_left,
    )
