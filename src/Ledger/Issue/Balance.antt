-- ===== src/Ledger/Issue/Balance.antt =====
-- What the body of an issue writes: the debt, the limit it was checked against, and the vouchers
-- that the agent gets (services/agent_ledger.go, `IssueToAgent`).
use zyranet_api.Base.{
  ℕ, ◌-◌, ◌*◌, ◌≤◌, ◌≡◌, refl, ap, ◌∙◌, true, false, some, List, [], ◌∷◌, ◌++◌, arith, All,
  All_find_first, find_first, subst, ◌==◌, ◌&&◌, length,
}
use zyranet_api.Int.{ℤ, pos, negsuc, ◌≤ℤ◌, leb_ℤ}
use zyranet_api.Words.{add64, fits64}
use zyranet_api.Text.{Text}
use zyranet_api.Models.{Package}
use zyranet_api.Ledger.Rows.{Agent, AgentVoucher, Funding}
use zyranet_api.Ledger.Tx.{Db, Env, ok, >>=-eq-ok}
use zyranet_api.Ledger.Idempotency.{Actor}
use zyranet_api.Ledger.Postings.{balance_of, agent_balance, Posts}
use zyranet_api.Ledger.Checks.{IssueRequest, Terms, terms_of, check_limit}
use zyranet_api.Ledger.Issue.{find_offer, write_batch, issue_body}
use zyranet_api.Ledger.Issue.Mint.{IsFresh}
use zyranet_api.Ledger.Issue.Pricing.{max_price, terms_exact}
use zyranet_api.Ledger.Issue.Entries.{owed}
use zyranet_api.Ledger.Issue.Steps.{
  IsCovered, find_offer_steps, agent_balance_steps, check_limit_steps, write_batch-Issued,
}

-- Prices are those of a decimal(10,2) column.
abbrev pub IsPriced : Package → Type 0
IsPriced p = p.price ≤ℤ pos max_price

-- A batch of `n` vouchers of face value `f` and commission `c` each was issued.
pub record Sold (agent_id : ℕ) (funding : Funding) (limit : ℤ) (n : ℕ) (s s' : Db) : Type 0 where
  pub f : ℕ
  pub c : ℕ
  pub below : c ≤ f
  pub owes : Posts agent_id (owed funding (pos (f * n - c * n))) s s'
  pub batch_id : ℕ
  pub added : List AgentVoucher
  pub whole : s.agent_vouchers ++ added ≡ s'.agent_vouchers
  pub number : length added ≡ n
  pub agrees : All (λ h. (h.agent_id ≡ agent_id) × (h.face ≡ pos f) × (h.commission ≡ pos c)) added
  pub covered :
      IsCovered funding limit (add64 (balance_of agent_id s.entries) (pos (f * n - c * n)))
  pub fits : fits64 (balance_of agent_id s.entries) ≡ true
  pub small : f * n ≤ 4999999999500

agreeing :
    (agent_id batch_id : ℕ) (terms : Terms) (f c : ℕ) (xs : List AgentVoucher)
    → terms.face ≡ pos f
    → terms.commission ≡ pos c
    → All (IsFresh agent_id batch_id terms) xs
    → All (λ h. (h.agent_id ≡ agent_id) × (h.face ≡ pos f) × (h.commission ≡ pos c)) xs
agreeing agent_id batch_id terms f c [] ef ec h = tt
agreeing agent_id batch_id terms f c (x ∷ xs) ef ec h = (
  (h.0.agent, h.0.face ∙ ef, h.0.commission ∙ ec),
  agreeing agent_id batch_id terms f c xs ef ec h.1,
)

pos_price :
    (z : ℤ) → leb_ℤ z (pos 0) ≡ false → z ≤ℤ pos max_price → (f : ℕ) × (z ≡ pos f) × (f ≤ max_price)
pos_price (pos f) h k = (f, refl, omega arith)
pos_price (negsuc f) h k = absurd (ground arith)

issue_body_steps :
    (env : Env) (actor : Actor) (req : IssueRequest) (n : ℕ) (funding : Funding)
    (method reference : Text) (a : Agent) (s : Db) (id : ℕ) (s' : Db)
    → issue_body env actor req n funding method reference a s ≡ ok (id, s')
    → (pkg : Package) × (z : ℕ) × (find_first
          (λ p. p.id == req.package_id && p.zone_id == z)
          s.packages
        ≡ some pkg)
      × (leb_ℤ pkg.price (pos 0) ≡ false)
      × (fits64 (balance_of a.id s.entries) ≡ true)
      × IsCovered funding a.credit_limit
          (add64 (balance_of a.id s.entries) (terms_of a pkg.price n).net)
      × (write_batch env actor a pkg n funding (terms_of a pkg.price n) method reference s
          ≡ ok (id, s'))
unfolding issue_body
issue_body_steps env actor req n funding method reference a s id s' h =
    let (pkg, t, offered, h₁) =
      >>=-eq-ok (find_offer env actor req.zone_id req.package_id a) _ s h in
    let (z, t_is, found, dear) =
      find_offer_steps env actor req.zone_id req.package_id a s pkg t offered in
    let (balance, u, read, h₂) = >>=-eq-ok (agent_balance env a.id) _ t h₁ in
    let (u_is, balance_is, fits) = agent_balance_steps env actor a.id t balance u read in
    let net = (terms_of a pkg.price n).net in
    let (_, v, limited, h₃) = >>=-eq-ok (check_limit funding balance net a.credit_limit) _ u h₂ in
    let (v_is, covered) =
      check_limit_steps env actor funding balance net a.credit_limit u v limited in
    let here = balance_is ∙ ap (λ d. balance_of a.id d.entries) t_is in
    (
      pkg,
      z,
      found,
      dear,
      rw here at fits,
      subst (λ b. IsCovered funding a.credit_limit (add64 b net)) here covered,
      subst
          (λ d.
            write_batch env actor a pkg n funding (terms_of a pkg.price n) method reference d
            ≡ ok (id, s'))
          (v_is ∙ u_is ∙ t_is) h₃,
    )

-- The same with the price as a number of cents.
write_batch-Sold :
    (env : Env) (actor : Actor) (pkg : Package) (f n : ℕ) (funding : Funding)
    (method reference : Text) (a : Agent) (s : Db) (id : ℕ) (s' : Db)
    → f ≤ max_price
    → n ≤ 500
    → fits64 (balance_of a.id s.entries) ≡ true
    → IsCovered funding a.credit_limit
        (add64 (balance_of a.id s.entries) (terms_of a (pos f) n).net)
    → write_batch env actor a pkg n funding (terms_of a (pos f) n) method reference s ≡ ok (id, s')
    → Sold a.id funding a.credit_limit n s s'
write_batch-Sold env actor pkg f n funding method reference a s id s' hf hn fits covered h =
    let terms = terms_of a (pos f) n in
    let (c, below, face, commission, gross, total, net, less, small) = terms_exact a f n hf hn in
    let w =
      write_batch-Issued env actor a pkg n funding terms method reference (f * n) (c * n) s id s'
        gross total net less small h in
    record {
      f = f;
      c = c;
      below = below;
      owes = subst (λ d. Posts a.id (owed funding d) s s') net w.posts;
      batch_id = w.batch_id;
      added = w.added;
      whole = w.whole;
      number = w.number;
      agrees = agreeing a.id w.batch_id terms f c w.added face commission w.fresh;
      covered =
          subst (λ d. IsCovered funding a.credit_limit (add64 (balance_of a.id s.entries) d)) net
            covered;
      fits = fits;
      small = small;
    }

pub issue_body-Sold :
    (env : Env) (actor : Actor) (req : IssueRequest) (n : ℕ) (funding : Funding)
    (method reference : Text) (a : Agent) (s : Db) (id : ℕ) (s' : Db)
    → All IsPriced s.packages
    → n ≤ 500
    → issue_body env actor req n funding method reference a s ≡ ok (id, s')
    → Sold a.id funding a.credit_limit n s s'
issue_body-Sold env actor req n funding method reference a s id s' priced few h =
    let (pkg, z, found, dear, fits, covered, written) =
      issue_body_steps env actor req n funding method reference a s id s' h in
    let dearest = All_find_first IsPriced _ s.packages priced found in
    let (f, cents, fb) = pos_price pkg.price dear dearest in
    write_batch-Sold env actor pkg f n funding method reference a s id s' fb few fits
      (subst
        (λ p.
          IsCovered funding a.credit_limit (add64 (balance_of a.id s.entries) (terms_of a p n).net))
        cents covered)
      (subst
        (λ p.
          write_batch env actor a pkg n funding (terms_of a p n) method reference s ≡ ok (id, s'))
        cents written)
