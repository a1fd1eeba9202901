-- ===== src/Ledger/Return.antt =====
-- Unsold vouchers that an agent hands back (services/agent_ledger.go: `ReturnAgentVouchers`, `dedupe`).
pub mod Laws
mod Tests
use zyranet_api.Base.{
  ℕ, suc, Bool, true, false, not, ◌&&◌, Option, none, some, List, [], ◌∷◌, ◌++◌, map, ◌==◌, leb,
  if◌then◌else◌, length, select, count_where, update_where, exists_where,
}
use zyranet_api.Int.{ℤ, pos, leb_ℤ, eq_ℤ}
use zyranet_api.Words.{add64, neg64}
use zyranet_api.Text.{Text, Part, txt, num, nums, bytes, text_eq, trim_space, decimal}
use zyranet_api.Models.{Voucher, VoucherStatus}
use zyranet_api.Ledger.Rows.{Agent, AgentVoucher, HeldStatus, is_issued, Entry, EntryType}
use zyranet_api.Ledger.Tx.{
  Db, Env, Result, ok, err, refused, fault, Tx, pure, gets, fail_if, refuse_if, modify,
  nothing_picked, nothing_unsold, not_held, already_gone, used, changed, find_held, void_voucher,
  mark_returned, insert_entry, ◌>>=◌, ◌>>◌,
}
use zyranet_api.Ledger.Idempotency.{Actor, run_idempotent, request_hash}
use zyranet_api.Ledger.Postings.{new_entry}
use zyranet_api.Ledger.Entries.{Receipt, load_entry}

pub record ReturnRequest : Type 0 where
  pub agent_id : ℕ
  pub voucher_ids : List ℕ
  pub batch_id : ℕ
  pub note : Text
  pub key : Text

abbrev pub has_number : ℕ → List ℕ → Bool
has_number n ns = exists_where (λ m. m == n) ns

abbrev pub insert_number : ℕ → List ℕ → List ℕ
insert_number n [] = n ∷ []
insert_number n (m ∷ ms) = if leb n m then n ∷ m ∷ ms else m ∷ insert_number n ms

abbrev pub sort_numbers : List ℕ → List ℕ
sort_numbers [] = []
sort_numbers (n ∷ ns) = insert_number n (sort_numbers ns)

-- The numbers without repetitions.
abbrev pub dedupe : List ℕ → List ℕ
dedupe [] = []
dedupe (n ∷ ns) = n ∷ select (λ m. not (m == n)) (dedupe ns)

abbrev pub is_unused : Voucher → Bool
is_unused v =
    (elim v.status [
      | VoucherStatus.unused ↦ true
      | VoucherStatus.active ↦ false
      | VoucherStatus.expired ↦ false
      | VoucherStatus.depleted ↦ false
      | VoucherStatus.void ↦ false
    ])
    && eq_ℤ v.usage_count (pos 0)

abbrev pub is_unused_voucher : ℕ → Voucher → Bool
is_unused_voucher id v = v.id == id && is_unused v

abbrev pub is_issued_row : ℕ → AgentVoucher → Bool
is_issued_row id a = a.id == id && is_issued a.status

-- The sums of what was handed back, modulo 2^64.
pub record Totals : Type 0 where
  pub face : ℤ
  pub commission : ℤ

abbrev pub add_row : Totals → AgentVoucher → Totals
add_row t h = record { face = add64 t.face h.face; commission = add64 t.commission h.commission }

abbrev pub totals_from : Totals → List AgentVoucher → Totals
totals_from t [] = t
totals_from t (h ∷ hs) = totals_from (add_row t h) hs

module _ (env : Env) (actor : Actor) where
  -- The rows that are asked for, in the order of their ids.
  abbrev pub is_asked : List ℕ → ℕ → ℕ → AgentVoucher → Bool
  is_asked ids batch_id agent_id h =
      h.agent_id == agent_id && h.org_id == actor.org_id && (elim ids [
        | [] ↦ h.batch_id == batch_id && is_issued h.status
        | n ∷ ns ↦ has_number h.voucher_id (n ∷ ns)
      ])

  abbrev pub lost_some : List ℕ → List AgentVoucher → Bool
  lost_some ids held = elim ids [
    | [] ↦ false
    | n ∷ ns ↦ not (length held == length (dedupe (n ∷ ns)))
  ]

  -- Void one voucher and take it from the agent.
  unfoldable pub return_one : ℕ → AgentVoucher → Tx (Unit {0})
  return_one i h = do
    refuse_if (not (is_issued h.status)) (already_gone h.voucher_id)
    fail_if (env.fails (void_voucher i)) fault
    n ← gets (λ db. count_where (is_unused_voucher h.voucher_id) db.vouchers)
    refuse_if (not (n == 1)) (used h.voucher_id)
    modify (λ db. record db {
      vouchers =
          update_where (is_unused_voucher h.voucher_id)
            (λ v. record v { status = VoucherStatus.void }) db.vouchers;
    })
    fail_if (env.fails (mark_returned i)) fault
    m ← gets (λ db. count_where (is_issued_row h.id) db.agent_vouchers)
    refuse_if (not (m == 1)) (changed h.voucher_id)
    modify (λ db. record db {
      agent_vouchers =
          update_where (is_issued_row h.id)
            (λ a. record a { status = HeldStatus.returned; returned_at = some env.now })
            db.agent_vouchers;
    })

  unfoldable pub return_each : ℕ → List AgentVoucher → Tx (Unit {0})
  return_each i [] = pure tt
  return_each i (h ∷ hs) = do return_one i h; return_each (suc i) hs

  -- The batch that all of them come from, if it is one.
  abbrev pub one_batch : List ℕ → Option ℕ
  one_batch [] = none
  one_batch (b ∷ []) = some b
  one_batch (b ∷ c ∷ bs) = none

  abbrev pub return_entry : EntryType → List AgentVoucher → Text → ℕ → ℤ → Entry
  return_entry kind held note agent_id amount = record (new_entry env actor agent_id kind amount) {
    voucher_count = length held;
    note = note;
    batch_id = one_batch (dedupe (map (λ h. h.batch_id) held));
  }

  abbrev pub note_or_count : Text → List AgentVoucher → Text
  note_or_count note held =
      if text_eq (trim_space note) []
      then decimal (length held) ++ bytes " unsold voucher(s) returned"
      else trim_space note

  -- The commission that is taken back, if there was any.
  unfoldable pub post_commission : List AgentVoucher → Text → ℕ → ℤ → ℕ → Tx ℕ
  post_commission held note agent_id commission id db =
      if leb_ℤ commission (pos 0)
      then ok (id, db)
      else (insert_entry env 1
              (return_entry EntryType.commission_reversal held note agent_id commission)
            >>= λ _. pure id)
          db

  unfoldable pub post_return : List AgentVoucher → Text → ℕ → Totals → Tx ℕ
  post_return held note agent_id t = do
    id ← insert_entry env 0 (return_entry EntryType.return held note agent_id (neg64 t.face))
    post_commission held note agent_id t.commission id

  abbrev pub no_totals : Totals
  no_totals = record { face = pos 0; commission = pos 0 }

  unfoldable pub return_held : List AgentVoucher → Text → ℕ → Tx ℕ
  return_held held note agent_id = do
    return_each 0 held
    post_return held note agent_id (totals_from no_totals held)

  abbrev pub held_rows : List ℕ → ReturnRequest → Agent → Db → List AgentVoucher
  held_rows ids req agent db = select (is_asked ids req.batch_id agent.id) db.agent_vouchers

  unfoldable pub return_body : List ℕ → ReturnRequest → Agent → Tx ℕ
  return_body ids req agent = do
    fail_if (env.fails find_held) fault
    held ← gets (held_rows ids req agent)
    refuse_if (length held == 0) nothing_unsold
    refuse_if (lost_some ids held) not_held
    return_held held (note_or_count req.note held) agent.id

  abbrev pub return_parts : List ℕ → ReturnRequest → List Part
  return_parts ids req =
      txt (bytes "return")
      ∷ num (pos req.agent_id)
      ∷ nums ids
      ∷ num (pos req.batch_id)
      ∷ txt req.note
      ∷ []

  unfoldable pub return_agent_vouchers : ReturnRequest → Db → Result Receipt × Db
  return_agent_vouchers req db =
      let ids = sort_numbers req.voucher_ids in
      if length ids == 0 && req.batch_id == 0
      then (err (refused nothing_picked), db)
      else load_entry env (
          run_idempotent env actor req.agent_id req.key (bytes "return")
            (request_hash env (return_parts ids req)) (return_body ids req) db)
