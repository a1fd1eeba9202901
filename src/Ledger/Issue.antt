-- ===== src/Ledger/Issue.antt =====
-- The issue of a batch of vouchers to an agent (services/agent_ledger.go: `IssueToAgent`,
-- `agentHasZone`).
pub mod Mint
pub mod Pricing
pub mod Entries
pub mod Steps
pub mod Balance
pub mod Limits
pub mod Codes
mod Tests
use zyranet_api.Base.{
  ℕ, zero, suc, ◌+◌, Bool, true, false, not, ◌&&◌, ◌||◌, none, some, List, [], ◌∷◌, ◌++◌, ◌==◌,
  if◌then◌else◌, find_first, exists_where, select, opt_eq,
}
use zyranet_api.Int.{ℤ, pos, leb_ℤ, ltb_ℤ}
use zyranet_api.Words.{neg64}
use zyranet_api.Text.{Text, Part, txt, num, text_eq, bytes, trim_space, to_lower, to_upper, decimal}
use zyranet_api.Models.{Package, Voucher}
use zyranet_api.Ledger.Rows.{
  Agent, Batch, AgentVoucher, Entry, EntryType, Funding, upfront, HeldStatus,
}
use zyranet_api.Ledger.Tx.{
  Db, Env, Result, ok, err, refused, fault, Tx, pure, gets, or_fail, fail_if, refuse_if, modify,
  ◌>>◌, agent_inactive, invalid_zone, not_agent_zone, package_not_in_zone, package_inactive,
  free_package, find_zone, find_agent_zone, find_package, create_batch, create_agent_voucher,
  reload, insert_entry, ◌>>=◌,
}
use zyranet_api.Ledger.Money.{format_cents}
use zyranet_api.Ledger.Idempotency.{Actor, Done, run_idempotent, request_hash}
use zyranet_api.Ledger.Postings.{agent_balance, new_entry}
use zyranet_api.Ledger.Checks.{
  IssueRequest, accepted, rejected, check_issue, Terms, terms_of, check_limit,
}
use zyranet_api.Voucher.Generate.{generate_tx}

abbrev pub is_active : Text → Bool
is_active status = text_eq status (bytes "active")

abbrev pub append_batch : Batch → Db → Db
append_batch b db = record db { batches = db.batches ++ b ∷ []; next_batch = suc db.next_batch }

abbrev pub append_held : AgentVoucher → Db → Db
append_held v db = record db {
  agent_vouchers = db.agent_vouchers ++ v ∷ [];
  next_agent_voucher = suc db.next_agent_voucher;
}

-- `%d x %s @ KES %s`
unfoldable pub issue_note : ℕ → Text → ℤ → Text
issue_note quantity name face =
    decimal quantity ++ bytes " x " ++ name ++ bytes " @ KES " ++ format_cents face

-- An entry of the batch, with the batch's note where it has none.
abbrev pub batch_entry : ℕ → ℕ → Text → Entry → Entry
batch_entry batch_id quantity note e = record e {
  batch_id = some batch_id;
  voucher_count = quantity;
  note = if text_eq e.note [] then note else e.note;
}

abbrev pub is_upfront : Funding → Bool
is_upfront upfront = true
is_upfront _ = false

module _ (env : Env) (actor : Actor) where
  -- The package on sale, after the checks of agent, zone and package. Any error of a query reads as
  -- a row that is not there.
  unfoldable pub find_offer : ℕ → ℕ → Agent → Tx Package
  find_offer zone_id package_id agent = do
    refuse_if (not (is_active agent.status)) agent_inactive
    refuse_if (env.fails find_zone) invalid_zone
    zone ←
        or_fail
          (← gets (λ db. find_first (λ z. z.id == zone_id && z.org_id == actor.org_id) db.zones))
          (refused invalid_zone)
    refuse_if (env.fails find_agent_zone || not (exists_where (λ z. z == zone.id) agent.zones))
        not_agent_zone
    refuse_if (env.fails find_package) package_not_in_zone
    pkg ←
        or_fail
          (← gets (λ db. find_first (λ p. p.id == package_id && p.zone_id == zone.id) db.packages))
          (refused package_not_in_zone)
    refuse_if (not (is_active pkg.status)) package_inactive
    refuse_if (leb_ℤ pkg.price (pos 0)) free_package
    pure pkg

  unfoldable pub insert_batch : ℕ → Package → ℕ → Funding → Terms → Tx ℕ
  insert_batch agent_id pkg quantity funding terms = do
    fail_if (env.fails create_batch) fault
    id ← gets (λ db. db.next_batch)
    modify (
        append_batch (record {
          id = id;
          org_id = actor.org_id;
          agent_id = agent_id;
          zone_id = pkg.zone_id;
          package_id = pkg.id;
          quantity = quantity;
          face = terms.face;
          commission = terms.commission;
          funding = funding;
          created_by = actor.user_id;
          created_at = env.now;
        }))
    pure id

  abbrev pub held_voucher : ℕ → ℕ → Terms → ℕ → ℕ → AgentVoucher
  held_voucher agent_id batch_id terms voucher_id id = record {
    id = id;
    org_id = actor.org_id;
    agent_id = agent_id;
    batch_id = batch_id;
    voucher_id = voucher_id;
    face = terms.face;
    commission = terms.commission;
    status = HeldStatus.issued;
    sold_at = none;
    returned_at = none;
    created_at = env.now;
  }

  -- One voucher and the row that puts it in the agent's hands.
  unfoldable pub mint_one : ℕ → ℕ → Package → Terms → ℕ → Tx (Unit {0})
  mint_one agent_id batch_id pkg terms i = do
    voucher_id ← generate_tx env i pkg.zone_id pkg.id (bytes "single_use") (pos 1)
    fail_if (env.fails (create_agent_voucher i)) fault
    id ← gets (λ db. db.next_agent_voucher)
    modify (append_held (held_voucher agent_id batch_id terms voucher_id id))

  -- The loop over the quantity: `n` vouchers from number `i` on.
  unfoldable pub mint : ℕ → ℕ → Package → Terms → ℕ → ℕ → Tx (Unit {0})
  mint agent_id batch_id pkg terms zero i = pure tt
  mint agent_id batch_id pkg terms (suc n) i =
      mint_one agent_id batch_id pkg terms i >> mint agent_id batch_id pkg terms n (suc i)

  abbrev pub upfront_entry : ℕ → ℤ → Text → Text → Entry
  upfront_entry agent_id net method reference =
      record (new_entry env actor agent_id EntryType.handover (neg64 net)) {
        method = method;
        reference = reference;
        note = bytes "Paid upfront for batch";
      }

  unfoldable pub issue_entries : ℕ → Funding → Terms → Text → Text → List Entry
  issue_entries agent_id funding terms method reference =
      new_entry env actor agent_id EntryType.issue terms.gross
        ∷ (if ltb_ℤ (pos 0) terms.commission_total
            then new_entry env actor agent_id EntryType.commission (neg64 terms.commission_total)
              ∷ []
            else [])
      ++ (if is_upfront funding && ltb_ℤ (pos 0) terms.net
          then upfront_entry agent_id terms.net method reference ∷ []
          else [])

  unfoldable pub insert_entries : ℕ → ℕ → Text → ℕ → List Entry → Tx (Unit {0})
  insert_entries batch_id quantity note i [] = pure tt
  insert_entries batch_id quantity note i (e ∷ es) = do
    id ← insert_entry env i (batch_entry batch_id quantity note e)
    insert_entries batch_id quantity note (suc i) es

  -- The writes, after all checks.
  unfoldable pub write_batch : Agent → Package → ℕ → Funding → Terms → Text → Text → Tx ℕ
  write_batch agent pkg quantity funding terms method reference = do
    batch_id ← insert_batch agent.id pkg quantity funding terms
    mint agent.id batch_id pkg terms quantity 0
    insert_entries batch_id quantity (issue_note quantity pkg.name terms.face) 0
        (issue_entries agent.id funding terms method reference)
    pure batch_id

  unfoldable pub issue_body : IssueRequest → ℕ → Funding → Text → Text → Agent → Tx ℕ
  issue_body req quantity funding method reference agent = do
    pkg ← find_offer req.zone_id req.package_id agent
    let terms = terms_of agent pkg.price quantity
    balance ← agent_balance env agent.id
    check_limit funding balance terms.net agent.credit_limit
    write_batch agent pkg quantity funding terms method reference

  abbrev pub issue_parts : IssueRequest → Text → Text → List Part
  issue_parts req method reference =
      txt (bytes "issue")
      ∷ num (pos req.agent_id)
      ∷ num (pos req.zone_id)
      ∷ num (pos req.package_id)
      ∷ num req.quantity
      ∷ txt req.funding
      ∷ txt method
      ∷ txt reference
      ∷ []

  unfoldable pub run_issue : IssueRequest → ℕ → Funding → Text → Text → Db → Result Done × Db
  run_issue req quantity funding method reference =
      run_idempotent env actor req.agent_id req.key (bytes "issue")
        (request_hash env (issue_parts req method reference))
        (issue_body req quantity funding method reference)

-- The batch, its vouchers and the entries it wrote.
pub record IssueResult : Type 0 where
  pub batch : Batch
  pub vouchers : List Voucher
  pub entries : List Entry
  pub replayed : Bool

abbrev pub is_batch_kind : EntryType → Bool
is_batch_kind EntryType.issue = true
is_batch_kind EntryType.commission = true
is_batch_kind EntryType.handover = true
is_batch_kind _ = false

-- The batch is read back after the transaction.
unfoldable pub load_batch : Env → Result Done × Db → Result IssueResult × Db
load_batch env (err e, db) = (err e, db)
load_batch env (ok done, db) =
    if env.fails reload
    then (err fault, db)
    else elim (find_first (λ b. b.id == done.result) db.batches) [
      | none ↦ (err fault, db)
      | some b ↦ (
        ok (record {
          batch = b;
          vouchers =
              select
                (λ v.
                  exists_where (λ h. h.batch_id == done.result && h.voucher_id == v.id)
                    db.agent_vouchers)
                db.vouchers;
          entries =
              select (λ e. opt_eq e.batch_id (some done.result) && is_batch_kind e.kind) db.entries;
          replayed = done.replay;
        }),
        db,
      )
    ]

unfoldable pub issue_to_agent : Env → Actor → IssueRequest → Db → Result IssueResult × Db
issue_to_agent env actor req db =
    let method = to_lower (trim_space req.method) in
    let reference = to_upper (trim_space req.reference) in
    elim (check_issue actor req method reference) [
      | rejected r ↦ (err (refused r), db)
      | accepted quantity funding ↦
          load_batch env (run_issue env actor req quantity funding method reference db)
    ]
