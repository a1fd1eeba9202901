-- ===== src/Ledger/Issue/Entries.antt =====
-- The entries of a batch: whose they are, and what they come to
-- (services/agent_ledger.go, `IssueToAgent`).
use zyranet_api.Base.{ℕ, suc, ◌-◌, ◌≤◌, ◌≡◌, ◌∙◌, List, [], ◌∷◌, arith, All, subst}
use zyranet_api.Int.{ℤ, pos, ◌+ℤ◌, ◌-ℤ◌, sum_of}
use zyranet_api.Words.{neg64, neg64_id}
use zyranet_api.Text.{Text}
use zyranet_api.Ledger.Rows.{Entry, Funding, credit, float, upfront}
use zyranet_api.Ledger.Tx.{Db, Env, ok, >>=-eq-ok, insert_entry}
use zyranet_api.Ledger.Idempotency.{Actor}
use zyranet_api.Ledger.Postings.{
  amount_of, new_entry, Posts, Posts-refl, Posts-trans, insert_entry-Posts,
}
use zyranet_api.Ledger.Checks.{Terms}
use zyranet_api.Ledger.Issue.{batch_entry, issue_entries, insert_entries}

-- The entries that are inserted leave the agent's vouchers alone.
pub insert_entries_keep :
    (env : Env) (actor : Actor) (batch_id quantity : ℕ) (note : Text) (i : ℕ) (es : List Entry)
    (s s' : Db)
    → insert_entries env actor batch_id quantity note i es s ≡ ok (tt, s')
    → s'.agent_vouchers ≡ s.agent_vouchers
unfolding insert_entries insert_entry
insert_entries_keep env actor batch_id quantity note i [] s s' h = ground arith
insert_entries_keep env actor batch_id quantity note i (e ∷ es) s s' h =
    let b = batch_entry batch_id quantity note e in
    let (id, t, first, rest) = >>=-eq-ok (insert_entry env i b) _ s h in
    insert_entries_keep env actor batch_id quantity note (suc i) es t s' rest ∙ ground arith

-- What a batch adds to what the agent owes.
abbrev pub owed : Funding → ℤ → ℤ
owed upfront net = pos 0
owed _ net = net

pub insert_entries-Posts :
    (env : Env) (actor : Actor) (agent_id batch_id quantity : ℕ) (note : Text) (i : ℕ)
    (es : List Entry) (s s' : Db)
    → All (λ e. e.agent_id ≡ agent_id) es
    → insert_entries env actor batch_id quantity note i es s ≡ ok (tt, s')
    → Posts agent_id (sum_of amount_of es) s s'
unfolding insert_entries
insert_entries-Posts env actor agent_id batch_id quantity note i [] s s' owned h =
    subst (Posts agent_id (pos 0) s) (ground arith) (Posts-refl agent_id s)
insert_entries-Posts env actor agent_id batch_id quantity note i (e ∷ es) s s' owned h =
    let b = batch_entry batch_id quantity note e in
    let (id, t, first, rest) = >>=-eq-ok (insert_entry env i b) _ s h in
    let posted = insert_entry-Posts env i b s t id first in
    Posts-trans agent_id e.amount (sum_of amount_of es) s t s'
      (subst (λ k. Posts k e.amount s t) owned.0 posted)
      (insert_entries-Posts env actor agent_id batch_id quantity note (suc i) es t s' owned.1 rest)

-- The entries of a batch belong to the agent, and come to what the batch adds to the debt.
pub issue_entries_owned :
    (env : Env) (actor : Actor) (agent_id : ℕ) (funding : Funding) (terms : Terms)
    (method reference : Text)
    → All
        (λ e. e.agent_id ≡ agent_id)
        (issue_entries env actor agent_id funding terms method reference)
unfolding issue_entries new_entry ◌+ℤ◌ ◌-ℤ◌
issue_entries_owned env actor agent_id funding terms method reference = ground arith

neg64_pos : (n : ℕ) → n ≤ 4999999999500 → neg64 (pos n) ≡ pos 0 -ℤ pos n
unfolding ◌-ℤ◌
neg64_pos n h = neg64_id (pos n) (ground arith)

pub sum-issue_entries :
    (env : Env) (actor : Actor) (agent_id : ℕ) (funding : Funding) (terms : Terms)
    (method reference : Text) (g c : ℕ)
    → terms.gross ≡ pos g
    → terms.commission_total ≡ pos c
    → terms.net ≡ pos (g - c)
    → c ≤ g
    → g ≤ 4999999999500
    → sum_of amount_of (issue_entries env actor agent_id funding terms method reference)
      ≡ owed funding terms.net
unfolding issue_entries new_entry ◌+ℤ◌ ◌-ℤ◌
sum-issue_entries env actor agent_id credit terms method reference g c eg ec en le small =
    rw (eg, ec, en) (ground (arith, neg64_pos c (omega arith)))
sum-issue_entries env actor agent_id float terms method reference g c eg ec en le small =
    rw (eg, ec, en) (ground (arith, neg64_pos c (omega arith)))
sum-issue_entries env actor agent_id upfront terms method reference g c eg ec en le small =
    rw (eg, ec, en) (ground (arith, neg64_pos c (omega arith), neg64_pos (g - c) (omega arith)))
