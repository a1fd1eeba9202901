-- ===== src/Ledger/Issue/Codes.antt =====
-- The vouchers of a batch in the table of vouchers (services/agent_ledger.go, `IssueToAgent`;
-- services/voucher.go, `GenerateTx`).
use zyranet_api.Base.{
  ℕ, zero, suc, ◌≡◌, refl, sym, ◌∙◌, List, [], ◌∷◌, ◌++◌, arith, length, length-append, All,
  append-nil, append_assoc,
}
use zyranet_api.Int.{pos}
use zyranet_api.Text.{bytes}
use zyranet_api.Models.{Package, Voucher, VoucherStatus}
use zyranet_api.Ledger.Tx.{Db, Env, ok, >>=-eq-ok}
use zyranet_api.Ledger.Idempotency.{Actor}
use zyranet_api.Ledger.Checks.{Terms}
use zyranet_api.Ledger.Issue.{mint_one, mint}
use zyranet_api.Voucher.Generate.{generate_tx}
use zyranet_api.Voucher.Codes.{UniqueCodes, generate_tx-UniqueCodes}

-- A voucher that nobody has used, for this package.
abbrev pub IsUnused : Package → Voucher → Type 0
IsUnused pkg v =
    (v.zone_id ≡ pkg.zone_id)
    × (v.package_id ≡ pkg.id)
    × (v.status ≡ VoucherStatus.unused)
    × (v.usage_count ≡ pos 0)

-- `n` unused vouchers are added, and no code stands twice.
pub record Coded (pkg : Package) (n : ℕ) (s s' : Db) : Type 0 where
  pub unique : UniqueCodes s'.vouchers
  pub added : List Voucher
  pub whole : s.vouchers ++ added ≡ s'.vouchers
  pub number : length added ≡ n
  pub unused : All (IsUnused pkg) added

module _ (env : Env) (actor : Actor) (agent_id batch_id : ℕ) (pkg : Package) (terms : Terms) where
  mint_one-Coded :
      (i : ℕ) (s s' : Db)
      → UniqueCodes s.vouchers
      → mint_one env actor agent_id batch_id pkg terms i s ≡ ok (tt, s')
      → Coded pkg 1 s s'
  unfolding mint_one
  mint_one-Coded i s s' u h =
      let (id, t, made, rest) =
        >>=-eq-ok (generate_tx env i pkg.zone_id pkg.id (bytes "single_use") (pos 1)) _ s h in
      let (unique, v, added, _, zone, pkg_id, unused, count) =
        generate_tx-UniqueCodes env i pkg.zone_id pkg.id (bytes "single_use") (pos 1) s t id u
          made in
      let kept : s'.vouchers ≡ t.vouchers = ground arith in
      record {
        unique = rw kept unique;
        added = v ∷ [];
        whole = sym (kept ∙ added);
        number = refl;
        unused = ((zone, pkg_id, unused, count), tt);
      }

  -- From a table of vouchers in which no code stands twice, the loop that makes the `n` vouchers of a batch
  -- adds exactly `n`, all unused and for the batch's zone and package, after those that were there, and no
  -- code stands twice afterwards.
  pub mint-Coded :
      (n i : ℕ) (s s' : Db)
      → UniqueCodes s.vouchers
      → mint env actor agent_id batch_id pkg terms n i s ≡ ok (tt, s')
      → Coded pkg n s s'
  unfolding mint
  mint-Coded zero i s s' u h =
      let same : s' ≡ s = ground arith in
      record {
        unique = rw same u;
        added = [];
        whole = rw same (append-nil s.vouchers);
        number = refl;
        unused = tt;
      }
  mint-Coded (suc n) i s s' u h =
      let (_, t, one, rest) = >>=-eq-ok (mint_one env actor agent_id batch_id pkg terms i) _ s h in
      let first = mint_one-Coded i s t u one in
      let others = mint-Coded n (suc i) t s' first.unique rest in
      record {
        unique = others.unique;
        added = first.added ++ others.added;
        whole = rw (← append_assoc) (rw first.whole others.whole);
        number = omega (arith, length-append first.added others.added, first.number, others.number);
        unused = All-append first.added others.added first.unused others.unused;
      }
    where
      All-append :
          (xs ys : List Voucher)
          → All (IsUnused pkg) xs
          → All (IsUnused pkg) ys
          → All (IsUnused pkg) (xs ++ ys)
      All-append [] ys hx hy = hy
      All-append (x ∷ xs) ys hx hy = (hx.0, All-append xs ys hx.1 hy)
