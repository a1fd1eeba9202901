-- ===== src/Ledger/Issue/Limits.antt =====
-- The promises of an issue: the balance keeps within what its funding allows, and the agent gets
-- exactly the vouchers that were asked for (services/agent_ledger.go, `IssueToAgent`).
use zyranet_api.Base.{
  ℕ, ◌-◌, ◌*◌, ◌^◌, ◌≤◌, ◌≡◌, ◌≢◌, refl, ap, ◌∙◌, sym, true, false, some, List, ◌++◌, arith, All,
  find_first, Option-cases, inl, inr, subst, ◌==◌, length, ◌⊎◌,
}
use zyranet_api.Int.{ℤ, pos, negsuc, ◌≤ℤ◌, ◌+ℤ◌, int_laws}
use zyranet_api.Words.{add64, wrap64_id, fits64}
use zyranet_api.Text.{Text, bytes, trim_space, to_lower, to_upper}
use zyranet_api.Ledger.Rows.{Agent, AgentVoucher, Funding, credit, float, upfront}
use zyranet_api.Ledger.Tx.{Db, Env, Result, ok, err, Refusal}
use zyranet_api.Ledger.Idempotency.{Actor, Done, is_agent, request_hash}
use zyranet_api.Ledger.Idempotency.Laws.{run_idempotent_steps}
use zyranet_api.Ledger.Postings.{balance_of, Posts-balance_of}
use zyranet_api.Ledger.Entries.Laws.{Moves, Moves-of_Posts}
use zyranet_api.Ledger.Checks.{
  IssueRequest, Checked, accepted, rejected, check_issue, parse_funding,
}
use zyranet_api.Ledger.Issue.{
  issue_body, IssueResult, issue_to_agent, run_issue, load_batch, issue_parts,
}
use zyranet_api.Ledger.Issue.Entries.{owed}
use zyranet_api.Ledger.Issue.Balance.{IsPriced, Sold, issue_body-Sold}

-- The checks pass only a quantity from 1 to 500 and one of the three kinds of funding.
check_issue_steps :
    (actor : Actor) (req : IssueRequest) (method reference : Text) (n : ℕ) (funding : Funding)
    → check_issue actor req method reference ≡ accepted n funding
    → (req.quantity ≡ pos n) × (parse_funding req.funding ≡ some funding) × (1 ≤ n) × (n ≤ 500)
unfolding check_issue
check_issue_steps actor req method reference n funding h =
    elim (Option-cases (parse_funding req.funding)) [
      | inl unknown ↦ absurd (ground arith)
      | inr (f, known) ↦ ground arith
    ]

load_batch_steps :
    (env : Env) (o : Result Done) (s db' : Db) (r : IssueResult)
    → load_batch env (o, s) ≡ (ok r, db')
    → (d : Done) × (o ≡ ok d) × (d.replay ≡ r.replayed) × (s ≡ db')
unfolding load_batch
load_batch_steps env (err e) s db' r h = absurd (ground arith)
load_batch_steps env (ok d) s db' r h =
    elim (Option-cases (find_first (λ b. b.id == d.result) s.batches)) [
      | inl gone ↦ absurd (ground arith)
      | inr (b, found) ↦ (d, refl, ground arith, ground arith)
    ]

Checked-cases :
    (c : Checked)
    → ((r : Refusal) × (c ≡ rejected r)) ⊎ ((n : ℕ) × (f : Funding) × (c ≡ accepted n f))
Checked-cases (accepted n f) = inr (n, f, refl)
Checked-cases (rejected r) = inl (r, refl)

-- The database after a batch that was issued, in terms of what its body wrote.
issue_to_agent-Sold :
    (env : Env) (actor : Actor) (req : IssueRequest) (a : Agent) (db db' : Db) (r : IssueResult)
    → find_first (is_agent actor.org_id req.agent_id) db.agents ≡ some a
    → All IsPriced db.packages
    → issue_to_agent env actor req db ≡ (ok r, db')
    → r.replayed ≡ false
    → (n : ℕ) × (funding : Funding) × (s : Db) × (req.quantity ≡ pos n)
      × (parse_funding req.funding ≡ some funding)
      × Sold a.id funding a.credit_limit n db s
      × (db'.entries ≡ s.entries)
      × (db'.agent_vouchers ≡ s.agent_vouchers)
unfolding issue_to_agent run_issue
issue_to_agent-Sold env actor req a db db' r agent priced h fresh =
    let method = to_lower (trim_space req.method) in
    let reference = to_upper (trim_space req.reference) in
    elim (Checked-cases (check_issue actor req method reference)) [
      | inl (x, refused) ↦ absurd (ground arith)
      | inr (n, funding, passed) ↦
          let (asked, kind, least, most) =
            check_issue_steps actor req method reference n funding passed in
          let run = run_issue env actor req n funding method reference db in
          let loaded : load_batch env run ≡ (ok r, db') = ground arith in
          let (d, done, same, kept) = load_batch_steps env run.0 run.1 db' r loaded in
          let hash = request_hash env (issue_parts env actor req method reference) in
          let (b, s, found, _, worked, stored) =
            run_idempotent_steps env actor req.agent_id req.key (bytes "issue") hash
              (issue_body env actor req n funding method reference) db db' d (ground arith)
              (ground arith) in
          let this : b ≡ a = ground arith in
          (
            n,
            funding,
            s,
            asked,
            kind,
            issue_body-Sold env actor req n funding method reference a db d.result s priced most
                (rw this at worked),
            ap (λ t. t.entries) stored,
            ap (λ t. t.agent_vouchers) stored,
          )
    ]

add64_exact :
    (b : ℤ) (m : ℕ)
    → fits64 b ≡ true
    → b ≤ℤ pos (2 ^ 62)
    → m ≤ 4999999999500
    → add64 b (pos m) ≡ b +ℤ pos m
unfolding add64 ◌+ℤ◌
add64_exact (pos n) m f h k = wrap64_id _ (ground arith)
add64_exact (negsuc n) m f h k = wrap64_id _ (ground arith)

-- The balance after the batch, by the kind of funding.
abbrev pub Keeps : Funding → Agent → ℤ → ℤ → Type 0
Keeps credit a before after = after ≤ℤ a.credit_limit
Keeps float a before after = after ≤ℤ pos 0
Keeps upfront a before after = after ≡ before

covered-Keeps :
    (a : Agent) (funding : Funding) (n : ℕ) (db s : Db)
    → Sold a.id funding a.credit_limit n db s
    → balance_of a.id db.entries ≤ℤ pos (2 ^ 62)
    → Keeps funding a (balance_of a.id db.entries) (balance_of a.id s.entries)
covered-Keeps a credit n db s w b =
    let exact =
      add64_exact (balance_of a.id db.entries) (w.f * n - w.c * n) w.fits b
        (omega (arith, w.small)) in
    rw (Posts-balance_of w.owes) (subst (λ t. t ≤ℤ a.credit_limit) exact w.covered)
covered-Keeps a float n db s w b =
    let exact =
      add64_exact (balance_of a.id db.entries) (w.f * n - w.c * n) w.fits b
        (omega (arith, w.small)) in
    rw (Posts-balance_of w.owes) (subst (λ t. t ≤ℤ pos 0) exact w.covered)
covered-Keeps a upfront n db s w b = Posts-balance_of w.owes ∙ omega int_laws

-- When a batch is issued (and not replayed), with prices of a decimal(10,2) column and an agent whose
-- debt is at most 2^62 cents: on credit the new balance is within the agent's credit limit, on float it
-- is at or below zero, and paid upfront it is the old balance.
pub issue_to_agent_limits :
    (env : Env) (actor : Actor) (req : IssueRequest) (a : Agent) (funding : Funding) (db db' : Db)
    (r : IssueResult)
    → find_first (is_agent actor.org_id req.agent_id) db.agents ≡ some a
    → parse_funding req.funding ≡ some funding
    → All IsPriced db.packages
    → balance_of a.id db.entries ≤ℤ pos (2 ^ 62)
    → issue_to_agent env actor req db ≡ (ok r, db')
    → r.replayed ≡ false
    → Keeps funding a (balance_of a.id db.entries) (balance_of a.id db'.entries)
issue_to_agent_limits env actor req a funding db db' r agent kind priced bound h fresh =
    let (n, funding', s, asked, kind', w, entries, held) =
      issue_to_agent-Sold env actor req a db db' r agent priced h fresh in
    let this : funding' ≡ funding = ground arith in
    rw entries (
      subst (λ k. Keeps k a (balance_of a.id db.entries) (balance_of a.id s.entries)) this
        (covered-Keeps a funding' n db s w bound))

-- When a batch is issued (and not replayed), with prices of a decimal(10,2) column, there are a face
-- value `f` and a commission `c` of at most `f` such that the agent's balance grows by the quantity times
-- `f` less the quantity times `c` (by nothing if paid upfront), no other agent's balance moves, the ledger
-- only grows, and exactly the quantity asked for of vouchers at these amounts is added to the agent's.
pub issue_to_agent_delivers :
    (env : Env) (actor : Actor) (req : IssueRequest) (a : Agent) (other : ℕ) (db db' : Db)
    (r : IssueResult)
    → find_first (is_agent actor.org_id req.agent_id) db.agents ≡ some a
    → other ≢ a.id
    → All IsPriced db.packages
    → issue_to_agent env actor req db ≡ (ok r, db')
    → r.replayed ≡ false
    → (n f c : ℕ) × (funding : Funding) × (added : List AgentVoucher) × (req.quantity ≡ pos n)
      × (parse_funding req.funding ≡ some funding)
      × (c ≤ f)
      × Moves a.id other (owed funding (pos (f * n - c * n))) db.entries db'.entries
      × (db'.agent_vouchers ≡ db.agent_vouchers ++ added)
      × (length added ≡ n)
      × All (λ h. (h.agent_id ≡ a.id) × (h.face ≡ pos f) × (h.commission ≡ pos c)) added
issue_to_agent_delivers env actor req a other db db' r agent ne priced h fresh =
    let (n, funding, s, asked, kind, w, entries, held) =
      issue_to_agent-Sold env actor req a db db' r agent priced h fresh in
    (
      n,
      w.f,
      w.c,
      funding,
      w.added,
      asked,
      kind,
      w.below,
      Moves-of_Posts a.id other (owed funding (pos (w.f * n - w.c * n))) db s db'.entries ne w.owes
          entries,
      held ∙ sym w.whole,
      w.number,
      w.agrees,
    )
