-- ===== src/Mpesa/C2b/Sole.antt =====
-- A payment is never attributed by a guess (handlers/c2b_match.go).
use zyranet_api.Base.{
  ℕ, ◌≡◌, refl, Bool, true, false, ◌&&◌, Option, List, [], ◌∷◌, select, arith, Bool-cases, inl, inr,
  ◌⊎◌,
}
use zyranet_api.Text.{Text}
use zyranet_api.Models.{Zone}
use zyranet_api.Mpesa.C2b.{
  Payer, Lookup, fits, in_scope, Match, belongs_to, decide, first_match, lookups,
  match_c2b_customer,
}

-- A lookup that finds the payer and nobody else, after lookups that failed or found nobody.
pub data IsSole (fails : Lookup → Bool) (zones : List Zone) (org : Option ℕ) (payers : List Payer)
    (p : Payer) : List Lookup → Type 0 where
  here :
      (l : Lookup) (ls : List Lookup)
      → fails l ≡ false
      → select (λ q. in_scope zones org q && fits l q) payers ≡ p ∷ []
      → IsSole fails zones org payers p (l ∷ ls)
  later :
      (l : Lookup) (ls : List Lookup)
      → (fails l ≡ true) ⊎ (select (λ q. in_scope zones org q && fits l q) payers ≡ [])
      → IsSole fails zones org payers p ls
      → IsSole fails zones org payers p (l ∷ ls)

decide-cases :
    (found : List Payer) (rest : Match) (p : Payer)
    → decide found rest ≡ belongs_to p
    → (found ≡ p ∷ []) ⊎ ((found ≡ []) × (rest ≡ belongs_to p))
decide-cases [] rest p h = inr (refl, h)
decide-cases (q ∷ []) rest p h = inl (ground arith)
decide-cases (q ∷ r ∷ qs) rest p h = absurd (ground arith)

first_match-IsSole :
    (fails : Lookup → Bool) (zones : List Zone) (org : Option ℕ) (payers : List Payer)
    (ls : List Lookup) (p : Payer)
    → first_match fails zones org payers ls ≡ belongs_to p
    → IsSole fails zones org payers p ls
first_match-IsSole fails zones org payers [] p h = absurd (ground arith)
first_match-IsSole fails zones org payers (l ∷ ls) p h = elim (Bool-cases (fails l)) [
  | inl failing ↦
      later l ls (inl failing) (first_match-IsSole fails zones org payers ls p (ground arith))
  | inr works ↦
      elim (decide-cases (select (λ q. in_scope zones org q && fits l q) payers)
        (first_match fails zones org payers ls) p (ground arith)) [
          | inl sole ↦ here l ls works sole
          | inr (nothing, rest) ↦
              later l ls (inr nothing) (first_match-IsSole fails zones org payers ls p rest)
        ]
]

-- A payment that is attributed to a customer was found by one of the lookups (account number, PPPoE
-- name, the phone of the reference, the phone of the payer), which finds no other customer in the scope
-- of the shortcode, and every lookup in front of it failed or found nobody.
pub match_c2b_customer-IsSole :
    (fails : Lookup → Bool) (zones : List Zone) (payers : List Payer) (org : Option ℕ)
    (bill_ref msisdn : Text) (p : Payer)
    → match_c2b_customer fails zones payers org bill_ref msisdn ≡ belongs_to p
    → IsSole fails zones org payers p (lookups bill_ref msisdn)
unfolding match_c2b_customer
match_c2b_customer-IsSole fails zones payers org bill_ref msisdn p h =
    first_match-IsSole fails zones org payers (lookups bill_ref msisdn) p h
