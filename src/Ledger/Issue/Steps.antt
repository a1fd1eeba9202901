-- ===== src/Ledger/Issue/Steps.antt =====
-- A batch that was issued, taken apart into its steps (services/agent_ledger.go, `IssueToAgent`).
use zyranet_api.Base.{
  ℕ, ◌-◌, ◌≤◌, ◌≡◌, refl, ap, ◌∙◌, sym, true, false, some, List, [], ◌++◌, arith, All, find_first,
  Option-cases, inl, inr, subst, length, append-nil, ◌==◌, ◌&&◌,
}
use zyranet_api.Int.{ℤ, pos, ◌≤ℤ◌, ◌+ℤ◌, int_laws, leb_ℤ}
use zyranet_api.Words.{add64, fits64}
use zyranet_api.Text.{Text}
use zyranet_api.Models.{Package}
use zyranet_api.Ledger.Rows.{Agent, AgentVoucher, Funding, credit, float, upfront}
use zyranet_api.Ledger.Tx.{Db, Env, ok, >>=-eq-ok}
use zyranet_api.Ledger.Idempotency.{Actor}
use zyranet_api.Ledger.Postings.{balance_of, agent_balance, Posts, Posts-trans}
use zyranet_api.Ledger.Checks.{Terms, check_limit}
use zyranet_api.Ledger.Issue.{
  find_offer, insert_batch, mint, issue_entries, insert_entries, write_batch, issue_note,
}
use zyranet_api.Ledger.Issue.Mint.{IsFresh, mint-Mints}
use zyranet_api.Ledger.Issue.Entries.{
  owed, insert_entries-Posts, issue_entries_owned, sum-issue_entries, insert_entries_keep,
}

-- The balance that results is one that the funding allows.
abbrev pub IsCovered : Funding → ℤ → ℤ → Type 0
IsCovered credit limit balance = balance ≤ℤ limit
IsCovered float limit balance = balance ≤ℤ pos 0
IsCovered upfront limit balance = Unit

zero-add : (a : ℤ) → pos 0 +ℤ a ≡ a
zero-add a = omega int_laws

module _ (env : Env) (actor : Actor) where
  insert_batch_keeps :
      (agent_id : ℕ) (pkg : Package) (quantity : ℕ) (funding : Funding) (terms : Terms) (s : Db)
      (id : ℕ) (s' : Db)
      → insert_batch env actor agent_id pkg quantity funding terms s ≡ ok (id, s')
      → (s'.entries ≡ s.entries)
        × (s'.keys ≡ s.keys)
        × (s'.agents ≡ s.agents)
        × (s'.agent_vouchers ≡ s.agent_vouchers)
  unfolding insert_batch
  insert_batch_keeps agent_id pkg quantity funding terms s id s' h =
      (ground arith, ground arith, ground arith, ground arith)

  pub find_offer_steps :
      (zone_id package_id : ℕ) (a : Agent) (s : Db) (pkg : Package) (s' : Db)
      → find_offer env actor zone_id package_id a s ≡ ok (pkg, s')
      → (z : ℕ) × (s' ≡ s)
        × (find_first (λ p. p.id == package_id && p.zone_id == z) s.packages ≡ some pkg)
        × (leb_ℤ pkg.price (pos 0) ≡ false)
  unfolding find_offer
  find_offer_steps zone_id package_id a s pkg s' h =
      elim (Option-cases (find_first (λ z. z.id == zone_id && z.org_id == actor.org_id) s.zones)) [
        | inl gone ↦ absurd (ground arith)
        | inr (z, found) ↦
            elim (Option-cases
              (find_first (λ p. p.id == package_id && p.zone_id == z.id) s.packages)) [
                | inl gone ↦ absurd (ground arith)
                | inr (p, it) ↦ (z.id, ground arith, ground arith, ground arith)
              ]
      ]

  pub agent_balance_steps :
      (agent_id : ℕ) (s : Db) (b : ℤ) (s' : Db)
      → agent_balance env agent_id s ≡ ok (b, s')
      → (s' ≡ s) × (b ≡ balance_of agent_id s.entries) × (fits64 b ≡ true)
  unfolding agent_balance
  agent_balance_steps agent_id s b s' h = ground arith

  pub check_limit_steps :
      (funding : Funding) (balance net limit : ℤ) (s s' : Db)
      → check_limit funding balance net limit s ≡ ok (tt, s')
      → (s' ≡ s) × IsCovered funding limit (add64 balance net)
  unfolding check_limit
  check_limit_steps credit balance net limit s s' h = (ground arith, ground arith)
  check_limit_steps float balance net limit s s' h = (ground arith, ground arith)
  check_limit_steps upfront balance net limit s s' h = (ground arith, tt)

  -- The writes: the batch's debt is posted, and the agent holds the new vouchers.
  pub record Issued (agent_id : ℕ) (funding : Funding) (terms : Terms) (n : ℕ) (s s' : Db)
      : Type 0 where
    pub posts : Posts agent_id (owed funding terms.net) s s'
    pub batch_id : ℕ
    pub added : List AgentVoucher
    pub whole : s.agent_vouchers ++ added ≡ s'.agent_vouchers
    pub number : length added ≡ n
    pub fresh : All (IsFresh agent_id batch_id terms) added

  module _ (a : Agent) (pkg : Package) (n : ℕ) (funding : Funding) (terms : Terms)
      (method reference : Text) where
    pub write_batch-Issued :
        (g c : ℕ) (s : Db) (id : ℕ) (s' : Db)
        → terms.gross ≡ pos g
        → terms.commission_total ≡ pos c
        → terms.net ≡ pos (g - c)
        → c ≤ g
        → g ≤ 4999999999500
        → write_batch env actor a pkg n funding terms method reference s ≡ ok (id, s')
        → Issued a.id funding terms n s s'
    unfolding write_batch
    write_batch-Issued g c s id s' eg ec en le small h =
        let (b, t, made, h₁) = >>=-eq-ok (insert_batch env actor a.id pkg n funding terms) _ s h in
        let (_, u, minted, h₂) = >>=-eq-ok (mint env actor a.id b pkg terms n 0) _ t h₁ in
        let note = issue_note n pkg.name terms.face in
        let es = issue_entries env actor a.id funding terms method reference in
        let (_, v, written, h₃) = >>=-eq-ok (insert_entries env actor b n note 0 es) _ u h₂ in
        let last : v ≡ s' = ground arith in
        let (entries, keys, agents, held) =
          insert_batch_keeps a.id pkg n funding terms s b t made in
        let m = mint-Mints env actor a.id b pkg terms n 0 t u minted in
        let quiet : Posts a.id (pos 0) s u = record {
          added = [];
          whole = append-nil s.entries ∙ sym (m.entries ∙ entries);
          owned = tt;
          total = refl;
          keys = m.keys ∙ keys;
          agents = m.agents ∙ agents;
        } in
        let posted =
          insert_entries-Posts env actor a.id b n note 0 es u v
            (issue_entries_owned env actor a.id funding terms method reference) written in
        let total =
          sum-issue_entries env actor a.id funding terms method reference g c eg ec en le small in
        let all =
          Posts-trans a.id (pos 0) _ s u v quiet (subst (λ d. Posts a.id d u v) total posted) in
        record {
          posts =
              subst (Posts a.id (owed funding terms.net) s) last
                (subst (λ d. Posts a.id d s v) (zero-add (owed funding terms.net)) all);
          batch_id = b;
          added = m.added;
          whole =
              ap (λ l. l ++ m.added) (sym held)
              ∙ m.whole
              ∙ sym (insert_entries_keep env actor b n note 0 es u v written)
              ∙ ap (λ d. d.agent_vouchers) last;
          number = m.number;
          fresh = m.fresh;
        }
