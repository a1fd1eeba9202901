-- ===== src/Voucher/Codes.antt =====
-- The codes of vouchers (services/voucher.go: `GenerateTx`, `uniqueCode`).
use zyranet_api.Base.{
  ℕ, zero, suc, ◌+◌, ◌<◌, ◌≡◌, ◌≢◌, refl, ap, ◌∙◌, false, some, List, [], ◌∷◌, ◌++◌, arith,
  exists_where, Option-cases, Bool-cases, inl, inr, ◌==◌, if◌then◌else◌,
}
use zyranet_api.Int.{ℤ, pos}
use zyranet_api.Text.{Text, text_eq, bytes}
use zyranet_api.Models.{Voucher, VoucherStatus}
use zyranet_api.Ledger.Tx.{Db, Env, ok, count_code}
use zyranet_api.Voucher.Generate.{generate_tx, unique_code, has_code, new_voucher}

-- No code stands on two vouchers.
abbrev pub UniqueCodes : List Voucher → Type 0
UniqueCodes [] = Unit
UniqueCodes (v ∷ vs) = (exists_where (has_code v.code) vs ≡ false) × UniqueCodes vs

text_eq_sym : (s t : Text) → text_eq s t ≡ text_eq t s
unfolding text_eq
text_eq_sym [] [] = refl
text_eq_sym [] (b ∷ t) = refl
text_eq_sym (a ∷ s) [] = refl
text_eq_sym (a ∷ s) (b ∷ t) = ground (arith, text_eq_sym s t)

exists_where-append :
    (c : Text) (vs : List Voucher) (v : Voucher)
    → exists_where (has_code c) vs ≡ false
    → text_eq v.code c ≡ false
    → exists_where (has_code c) (vs ++ v ∷ []) ≡ false
exists_where-append c [] v h n = ground arith
exists_where-append c (x ∷ xs) v h n = ground (arith, exists_where-append c xs v)

append-UniqueCodes :
    (vs : List Voucher) (v : Voucher)
    → UniqueCodes vs
    → exists_where (has_code v.code) vs ≡ false
    → UniqueCodes (vs ++ v ∷ [])
append-UniqueCodes [] v u n = (refl, tt)
append-UniqueCodes (x ∷ xs) v u n = (
  exists_where-append x.code xs v u.0 (ground (arith, text_eq_sym x.code v.code)),
  append-UniqueCodes xs v u.1 (ground arith),
)

generate_tx_steps :
    (env : Env) (i zone_id package_id : ℕ) (kind : Text) (limit : ℤ) (s s' : Db) (id : ℕ)
    → generate_tx env i zone_id package_id kind limit s ≡ ok (id, s')
    → (v : Voucher) × (s'.vouchers ≡ s.vouchers ++ v ∷ [])
      × (exists_where (has_code v.code) s.vouchers ≡ false)
      × (v.id ≡ id)
      × (v.zone_id ≡ zone_id)
      × (v.package_id ≡ package_id)
      × (v.status ≡ VoucherStatus.unused)
      × (v.usage_count ≡ pos 0)
unfolding generate_tx
generate_tx_steps env i zone_id package_id kind limit s s' id h =
    elim (Option-cases (unique_code env i s.vouchers 20 0)) [
      | inl exhausted ↦ absurd (ground arith)
      | inr (code, drawn) ↦
          let cap = if text_eq kind (bytes "single_use") then pos 1 else limit in
          (
            new_voucher s.next_voucher code zone_id package_id kind cap,
            ground arith,
            ground arith,
            ground arith,
            refl,
            refl,
            refl,
            refl,
          )
    ]

pub generate_tx-UniqueCodes :
    (env : Env) (i zone_id package_id : ℕ) (kind : Text) (limit : ℤ) (s s' : Db) (id : ℕ)
    → UniqueCodes s.vouchers
    → generate_tx env i zone_id package_id kind limit s ≡ ok (id, s')
    → UniqueCodes s'.vouchers
      × (v : Voucher) × (s'.vouchers ≡ s.vouchers ++ v ∷ [])
      × (v.id ≡ id)
      × (v.zone_id ≡ zone_id)
      × (v.package_id ≡ package_id)
      × (v.status ≡ VoucherStatus.unused)
      × (v.usage_count ≡ pos 0)
generate_tx-UniqueCodes env i zone_id package_id kind limit s s' id u h =
    let (v, added, free, named, zone, pkg, unused, count) =
      generate_tx_steps env i zone_id package_id kind limit s s' id h in
    (rw added (append-UniqueCodes s.vouchers v u free), v, added, named, zone, pkg, unused, count)

-- Where no query fails, the random source does not fail, and one of the attempts from `k` on, number `j` of
-- `n`, draws a code that is not in use, a code is found, and it is not in use.
pub unique_code_finds :
    (env : Env) (i : ℕ) (vs : List Voucher) (draws : ℕ → Text) (n k j : ℕ)
    → ((a : ℕ) → env.draw i a ≡ some (draws a))
    → ((a : ℕ) → env.fails (count_code i a) ≡ false)
    → j < n
    → exists_where (has_code (draws (k + j))) vs ≡ false
    → (c : Text) × (unique_code env i vs n k ≡ some c) × (exists_where (has_code c) vs ≡ false)
unfolding unique_code
unique_code_finds env i vs draws zero k j d f lt free = absurd (omega arith)
unique_code_finds env i vs draws (suc n) k j d f lt free =
    elim (Bool-cases (exists_where (has_code (draws k)) vs)) [
      | inl taken ↦ elim (Bool-cases (j == 0)) [
        | inl first ↦ absurd (
            ground
              (arith, ap (λ t. exists_where (has_code (draws t)) vs) (at_first (ground arith))))
        | inr later ↦
            let (c, found, unused) =
              unique_code_finds env i vs draws n (suc k) (pred j) d f
                (omega (arith, pred_suc j (ground arith)))
                (ap (λ t. exists_where (has_code (draws t)) vs)
                    (omega (arith, pred_suc j (ground arith)))
                  ∙ free) in
            (c, ground (arith, d k, f k), unused)
      ]
      | inr unused ↦ (draws k, ground (arith, d k, f k), unused)
    ]
  where
    pred : ℕ → ℕ
    pred zero = zero
    pred (suc m) = m

    pred_suc : (m : ℕ) → m ≢ 0 → suc (pred m) ≡ m
    pred_suc zero ne = absurd (ne refl)
    pred_suc (suc m) ne = refl

    at_first : j ≡ 0 → k + j ≡ k
    at_first e = omega arith
