-- ===== src/Ledger/Issue/Mint.antt =====
-- The loop that makes a batch's vouchers and puts each in the agent's hands
-- (services/agent_ledger.go, `IssueToAgent`; services/voucher.go, `GenerateTx`).
use zyranet_api.Base.{
  ℕ, zero, suc, ◌+◌, ◌≡◌, refl, ◌∙◌, List, [], ◌∷◌, ◌++◌, arith, length, length-append, All,
  append-nil, append_assoc, subst, Option-cases, inl, inr,
}
use zyranet_api.Int.{ℤ, pos}
use zyranet_api.Text.{Text, bytes}
use zyranet_api.Models.{Package}
use zyranet_api.Ledger.Rows.{AgentVoucher, HeldStatus}
use zyranet_api.Ledger.Tx.{Db, Env, ok, >>=-eq-ok}
use zyranet_api.Ledger.Idempotency.{Actor}
use zyranet_api.Ledger.Checks.{Terms}
use zyranet_api.Ledger.Issue.{mint_one, mint, held_voucher}
use zyranet_api.Voucher.Generate.{generate_tx, unique_code}

-- A row that puts a voucher of this batch in the agent's hands, unsold.
pub record IsFresh (agent_id batch_id : ℕ) (terms : Terms) (h : AgentVoucher) : Type 0 where
  pub agent : h.agent_id ≡ agent_id
  pub batch : h.batch_id ≡ batch_id
  pub face : h.face ≡ terms.face
  pub commission : h.commission ≡ terms.commission
  pub unsold : h.status ≡ HeldStatus.issued

-- `n` such rows are added, and the ledger, the keys and the agents stay.
pub record Mints (agent_id batch_id : ℕ) (terms : Terms) (n : ℕ) (s s' : Db) : Type 0 where
  pub added : List AgentVoucher
  pub whole : s.agent_vouchers ++ added ≡ s'.agent_vouchers
  pub number : length added ≡ n
  pub fresh : All (IsFresh agent_id batch_id terms) added
  pub entries : s'.entries ≡ s.entries
  pub keys : s'.keys ≡ s.keys
  pub agents : s'.agents ≡ s.agents

generate_tx_keeps :
    (env : Env) (i zone_id package_id : ℕ) (kind : Text) (limit : ℤ) (s : Db) (id : ℕ) (s' : Db)
    → generate_tx env i zone_id package_id kind limit s ≡ ok (id, s')
    → (s'.entries ≡ s.entries)
      × (s'.keys ≡ s.keys)
      × (s'.agents ≡ s.agents)
      × (s'.agent_vouchers ≡ s.agent_vouchers)
unfolding generate_tx
generate_tx_keeps env i zone_id package_id kind limit s id s' h =
    elim (Option-cases (unique_code env i s.vouchers 20 0)) [
      | inl exhausted ↦ absurd (ground arith)
      | inr (code, drawn) ↦ (ground arith, ground arith, ground arith, ground arith)
    ]

one-add : (n : ℕ) → 1 + n ≡ suc n
one-add n = omega arith

module _ (env : Env) (actor : Actor) (agent_id batch_id : ℕ) (pkg : Package) (terms : Terms) where
  mint_one-Mints :
      (i : ℕ) (s s' : Db)
      → mint_one env actor agent_id batch_id pkg terms i s ≡ ok (tt, s')
      → Mints agent_id batch_id terms 1 s s'
  unfolding mint_one
  mint_one-Mints i s s' h =
      let (id, t, made, rest) =
        >>=-eq-ok (generate_tx env i pkg.zone_id pkg.id (bytes "single_use") (pos 1)) _ s h in
      let (entries, keys, agents, held) =
        generate_tx_keeps env i pkg.zone_id pkg.id (bytes "single_use") (pos 1) s id t made in
      record {
        added = held_voucher env actor agent_id batch_id terms id t.next_agent_voucher ∷ [];
        whole = ground arith;
        number = refl;
        fresh = (
          record { agent = refl; batch = refl; face = refl; commission = refl; unsold = refl },
          tt,
        );
        entries = ground arith;
        keys = ground arith;
        agents = ground arith;
      }

  IsFresh-append :
      (xs ys : List AgentVoucher)
      → All (IsFresh agent_id batch_id terms) xs
      → All (IsFresh agent_id batch_id terms) ys
      → All (IsFresh agent_id batch_id terms) (xs ++ ys)
  IsFresh-append [] ys hx hy = hy
  IsFresh-append (x ∷ xs) ys hx hy = (hx.0, IsFresh-append xs ys hx.1 hy)

  Mints-trans :
      (m n : ℕ) (s t u : Db)
      → Mints agent_id batch_id terms m s t
      → Mints agent_id batch_id terms n t u
      → Mints agent_id batch_id terms (m + n) s u
  Mints-trans m n s t u p q = record {
    added = p.added ++ q.added;
    whole = rw (← append_assoc) (rw p.whole q.whole);
    number = omega (arith, length-append p.added q.added, p.number, q.number);
    fresh = IsFresh-append p.added q.added p.fresh q.fresh;
    entries = q.entries ∙ p.entries;
    keys = q.keys ∙ p.keys;
    agents = q.agents ∙ p.agents;
  }

  -- The loop adds exactly as many rows as vouchers were asked for.
  pub mint-Mints :
      (n i : ℕ) (s s' : Db)
      → mint env actor agent_id batch_id pkg terms n i s ≡ ok (tt, s')
      → Mints agent_id batch_id terms n s s'
  unfolding mint
  mint-Mints zero i s s' h =
      let same : s' ≡ s = ground arith in
      record {
        added = [];
        whole = rw same (append-nil s.agent_vouchers);
        number = refl;
        fresh = tt;
        entries = rw same;
        keys = rw same;
        agents = rw same;
      }
  mint-Mints (suc n) i s s' h =
      let (_, t, one, rest) = >>=-eq-ok (mint_one env actor agent_id batch_id pkg terms i) _ s h in
      subst (λ k. Mints agent_id batch_id terms k s s') (one-add n)
        (Mints-trans 1 n s t s' (mint_one-Mints i s t one) (mint-Mints n (suc i) t s' rest))
