-- ===== src/Ledger/Entries.antt =====
-- Handovers, adjustments and reversals (services/agent_ledger.go: `validMethod`, `RecordHandover`,
-- `RecordAdjustment`, `ReverseEntry`).
pub mod Laws
pub mod Reversal
use zyranet_api.Base.{
  ℕ, ◌-◌, Bool, not, ◌&&◌, ◌||◌, Option, none, some, List, [], ◌∷◌, ◌==◌, ltb, if◌then◌else◌,
  length, find_first, exists_where, count_where, opt_eq,
}
use zyranet_api.Int.{ℤ, pos, negsuc, leb_ℤ, ltb_ℤ, eq_ℤ}
use zyranet_api.Words.{neg64}
use zyranet_api.Text.{Text, Part, txt, num, text_eq, bytes, trim_space, to_lower, to_upper}
use zyranet_api.Ledger.Rows.{Agent, Entry, EntryType, is_handover, is_reversible}
use zyranet_api.Ledger.Tx.{
  Db, Env, Result, ok, err, refused, fault, Tx, gets, or_fail, refuse_if, Refusal,
  missing_mpesa_code, bad_method, bad_amount, code_recorded, zero_amount, note_missing,
  entry_not_found, not_reversible, already_reversed, reload, count_handovers, count_reversals,
  find_entry, insert_entry, ◌>>=◌, ◌>>◌,
}
use zyranet_api.Ledger.Idempotency.{Actor, Done, run_idempotent, request_hash}
use zyranet_api.Ledger.Postings.{new_entry}

-- KES 10 million.
abbrev pub max_handover_cents : ℕ
max_handover_cents = 1_000_000_000

-- What is wrong with the method of a payment, if anything.
unfoldable pub valid_method : Text → Text → Option Refusal
valid_method method reference =
    if text_eq method (bytes "cash")
    then none
    else if text_eq method (bytes "mpesa")
    then if ltb (length reference) 8 || ltb 20 (length reference)
      then some missing_mpesa_code
      else none
    else some bad_method

-- An entry, and whether an earlier request wrote it.
pub record Receipt : Type 0 where
  pub entry : Entry
  pub replay : Bool

-- The entry is read back after the transaction.
unfoldable pub load_entry : Env → Result Done × Db → Result Receipt × Db
load_entry env (err e, db) = (err e, db)
load_entry env (ok done, db) =
    if env.fails reload
    then (err fault, db)
    else elim (find_first (λ e. e.id == done.result) db.entries) [
      | none ↦ (err fault, db)
      | some e ↦ (ok (record { entry = e; replay = done.replay }), db)
    ]

pub record HandoverRequest : Type 0 where
  pub agent_id : ℕ
  pub amount : ℤ
  pub method : Text
  pub reference : Text
  pub note : Text
  pub key : Text

-- Some entry reverses the one with this id.
abbrev pub is_reversed : List Entry → ℕ → Bool
is_reversed entries id = exists_where (λ e. opt_eq e.reverses_id (some id)) entries

-- A handover of the organization with this code that no entry reverses.
abbrev pub is_live_code : List Entry → ℕ → Text → Entry → Bool
is_live_code entries org_id reference e =
    e.org_id == org_id
    && is_handover e.kind
    && text_eq e.reference reference
    && not (is_reversed entries e.id)

-- The error of this count is not looked at: a failed count is zero.
unfoldable pub count_live_codes : Env → ℕ → Text → Tx ℕ
count_live_codes env org_id reference db = ok (
  if env.fails count_handovers
      then 0
      else count_where (is_live_code db.entries org_id reference) db.entries,
  db,
)

abbrev pub is_entry : ℕ → ℕ → ℕ → Entry → Bool
is_entry id agent_id org_id e = e.id == id && e.agent_id == agent_id && e.org_id == org_id

module _ (env : Env) (actor : Actor) where
  abbrev pub handover_entry : Text → Text → Text → ℤ → ℕ → Entry
  handover_entry method reference note amount agent_id =
      record (new_entry env actor agent_id EntryType.handover (neg64 amount)) {
        method = method;
        reference = reference;
        note = note;
      }

  -- With the method, the reference and the note already normalised.
  unfoldable pub handover_body : Text → Text → Text → ℤ → Agent → Tx ℕ
  handover_body method reference note amount agent = do
    n ← count_live_codes env actor.org_id reference
    refuse_if (text_eq method (bytes "mpesa") && ltb 0 n) code_recorded
    insert_entry env 0 (handover_entry method reference note amount agent.id)

  abbrev pub handover_parts : ℕ → ℤ → Text → Text → Text → List Part
  handover_parts agent_id amount method reference note =
      txt (bytes "handover")
      ∷ num (pos agent_id)
      ∷ num amount
      ∷ txt method
      ∷ txt reference
      ∷ txt note
      ∷ []

  unfoldable pub accepted_handover : HandoverRequest → Text → Text → Text → Db → Result Receipt × Db
  accepted_handover req method reference note db = load_entry env (
      run_idempotent env actor req.agent_id req.key (bytes "handover")
        (request_hash env (handover_parts req.agent_id req.amount method reference note))
        (handover_body method reference note req.amount) db)

  unfoldable pub record_handover : HandoverRequest → Db → Result Receipt × Db
  record_handover req db =
      let method = to_lower (trim_space req.method) in
      let reference = to_upper (trim_space req.reference) in
      if leb_ℤ req.amount (pos 0) || ltb_ℤ (pos max_handover_cents) req.amount
      then (err (refused bad_amount), db)
      else elim (valid_method method reference) [
        | some r ↦ (err (refused r), db)
        | none ↦ accepted_handover req method reference (trim_space req.note) db
      ]

  abbrev pub adjustment_entry : Text → ℤ → ℕ → Entry
  adjustment_entry note amount agent_id =
      record (new_entry env actor agent_id EntryType.adjustment amount) { note = note }

  unfoldable pub adjustment_body : Text → ℤ → Agent → Tx ℕ
  adjustment_body note amount agent = insert_entry env 0 (adjustment_entry note amount agent.id)

  unfoldable pub accepted_adjustment : ℕ → ℤ → Text → Text → Db → Result Receipt × Db
  accepted_adjustment agent_id amount note key db = load_entry env (
      run_idempotent env actor agent_id key (bytes "adjustment")
        (request_hash env
          (txt (bytes "adjustment") ∷ num (pos agent_id) ∷ num amount ∷ txt note ∷ []))
        (adjustment_body note amount) db)

  unfoldable pub record_adjustment : ℕ → ℤ → Text → Text → Db → Result Receipt × Db
  record_adjustment agent_id amount note key db =
      if eq_ℤ amount (pos 0)
        || ltb_ℤ (pos max_handover_cents) amount
        || ltb_ℤ amount (negsuc (max_handover_cents - 1))
      then (err (refused zero_amount), db)
      else if text_eq (trim_space note) []
      then (err (refused note_missing), db)
      else accepted_adjustment agent_id amount (trim_space note) key db

  -- Any error of the query reads as an entry that is not there.
  unfoldable pub find_original : ℕ → ℕ → Tx Entry
  find_original entry_id agent_id = do
    refuse_if (env.fails find_entry) entry_not_found
    or_fail (← gets (λ db. find_first (is_entry entry_id agent_id actor.org_id) db.entries))
        (refused entry_not_found)

  -- The error of this count is not looked at either.
  unfoldable pub count_reversals_of : ℕ → Tx ℕ
  count_reversals_of id db = ok (
    if env.fails count_reversals
        then 0
        else count_where (λ e. opt_eq e.reverses_id (some id)) db.entries,
    db,
  )

  abbrev pub reversal_entry : Entry → Text → ℕ → Entry
  reversal_entry orig note agent_id =
      record (new_entry env actor agent_id EntryType.reversal (neg64 orig.amount)) {
        batch_id = orig.batch_id;
        method = orig.method;
        reference = orig.reference;
        note = note;
        reverses_id = some orig.id;
      }

  unfoldable pub reversal_body : ℕ → Text → Agent → Tx ℕ
  reversal_body entry_id note agent = do
    orig ← find_original entry_id agent.id
    refuse_if (not (is_reversible orig.kind)) not_reversible
    n ← count_reversals_of orig.id
    refuse_if (ltb 0 n) already_reversed
    insert_entry env 0 (reversal_entry orig note agent.id)

  abbrev pub reversal_parts : ℕ → ℕ → Text → List Part
  reversal_parts agent_id entry_id note =
      txt (bytes "reversal") ∷ num (pos agent_id) ∷ num (pos entry_id) ∷ txt note ∷ []

  unfoldable pub accepted_reversal : ℕ → ℕ → Text → Text → Db → Result Receipt × Db
  accepted_reversal agent_id entry_id note key db = load_entry env (
      run_idempotent env actor agent_id key (bytes "reversal")
        (request_hash env (reversal_parts agent_id entry_id note)) (reversal_body entry_id note) db)

  unfoldable pub reverse_entry : ℕ → ℕ → Text → Text → Db → Result Receipt × Db
  reverse_entry agent_id entry_id note key db =
      if text_eq (trim_space note) []
      then (err (refused note_missing), db)
      else accepted_reversal agent_id entry_id (trim_space note) key db
