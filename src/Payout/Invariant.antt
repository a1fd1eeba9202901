-- ===== src/Payout/Invariant.antt =====
-- The invariant of payouts and the payments they claim, and what conditional updates do to it
-- (services/payout.go).
use zyranet_api.Base.{
  ℕ, ◌<◌, ◌≤◌, ◌≡◌, ◌≢◌, refl, ap, ◌∙◌, Bool, true, false, ◌&&◌, Option, none, some, List, [], ◌∷◌,
  arith, ◌==◌, if◌then◌else◌, count_where, update_where, All, Bool-cases, inl, inr,
}
use zyranet_api.Payout.Rows.{Status, pending, processing, completed, Payout, PayDb}

-- The status of the payout with this id.
abbrev pub status_of : ℕ → List Payout → Option Status
status_of i [] = none
status_of i (x ∷ xs) = if x.id == i then some x.status else status_of i xs

-- A payout that has not been given up.
abbrev pub is_live : Option Status → Bool
is_live (some pending) = true
is_live (some processing) = true
is_live (some completed) = true
is_live _ = false

-- A payment is unclaimed, or its payout is live.
abbrev pub is_backed : List Payout → Option ℕ → Bool
is_backed xs none = true
is_backed xs (some i) = is_live (status_of i xs)

abbrev pub has_id : ℕ → Payout → Bool
has_id i p = p.id == i

-- No id stands on two rows.
abbrev pub UniqueIds : List Payout → Type 0
UniqueIds [] = Unit
UniqueIds (x ∷ xs) = (count_where (has_id x.id) xs ≡ 0) × UniqueIds xs

pub record IsSound (db : PayDb) : Type 0 where
  pub unique : UniqueIds db.payouts
  pub below : All (λ p. p.id < db.next_payout) db.payouts
  pub backed : All (λ p. is_backed db.payouts p.payout_id ≡ true) db.payments

count_and-le :
    (i : ℕ) (from : Status → Bool) (xs : List Payout)
    → count_where (λ p. p.id == i && from p.status) xs ≤ count_where (has_id i) xs
count_and-le i from [] = omega arith
count_and-le i from (x ∷ xs) = ground (arith, count_and-le i from xs)

same_id :
    (k i : ℕ) (xs : List Payout) → k ≡ i → count_where (has_id k) xs ≡ count_where (has_id i) xs
same_id k i xs e = ap (λ t. count_where (has_id t) xs) e

-- A conditional update finds one row at most.
pub count_unique :
    (i : ℕ) (from : Status → Bool) (xs : List Payout)
    → UniqueIds xs
    → count_where (λ p. p.id == i && from p.status) xs ≤ 1
count_unique i from [] h = omega arith
count_unique i from (x ∷ xs) h = elim (Bool-cases (x.id == i)) [
  | inl hit ↦ ground (arith, count_and-le i from xs, same_id x.id i xs, h.0)
  | inr miss ↦ ground (arith, count_unique i from xs h.1)
]

-- A conditional update of the row with id `i`.
module _ (i : ℕ) (from : Status → Bool) (u : Payout → Payout)
    (keep : (p : Payout) → (u p).id ≡ p.id) where
  abbrev pub updated : List Payout → List Payout
  updated = update_where (λ p. p.id == i && from p.status) u

  pub count-updated :
      (k : ℕ) (xs : List Payout) → count_where (has_id k) (updated xs) ≡ count_where (has_id k) xs
  count-updated k [] = refl
  count-updated k (x ∷ xs) = ground (arith, keep x, count-updated k xs)

  pub updated-UniqueIds : (xs : List Payout) → UniqueIds xs → UniqueIds (updated xs)
  updated-UniqueIds [] h = tt
  updated-UniqueIds (x ∷ xs) h = elim (Bool-cases (x.id == i && from x.status)) [
    | inl hit ↦ rw hit (rw (keep x) (count-updated x.id xs ∙ h.0), updated-UniqueIds xs h.1)
    | inr miss ↦ rw miss (count-updated x.id xs ∙ h.0, updated-UniqueIds xs h.1)
  ]

  pub updated-below :
      (n : ℕ) (xs : List Payout) → All (λ p. p.id < n) xs → All (λ p. p.id < n) (updated xs)
  updated-below n [] h = tt
  updated-below n (x ∷ xs) h = ground (arith, keep x, updated-below n xs h.1)

  -- Another payout keeps its status.
  pub status_of-updated_ne :
      (j : ℕ) (xs : List Payout) → j ≢ i → status_of j (updated xs) ≡ status_of j xs
  status_of-updated_ne j [] n = refl
  status_of-updated_ne j (x ∷ xs) n = ground (arith, keep x, status_of-updated_ne j xs n)

  -- An update that gives a live status leaves live what was live.
  pub is_live-updated :
      ((p : Payout) → is_live (some (u p).status) ≡ true)
      → (j : ℕ) (xs : List Payout) → is_live (status_of j xs) ≡ true
      → is_live (status_of j (updated xs)) ≡ true
  is_live-updated live j [] h = h
  is_live-updated live j (x ∷ xs) h = ground (arith, keep x, live x, is_live-updated live j xs)

  -- The row that stands under an id decides how many rows the update finds.
  pub count-missed :
      (xs : List Payout) (st : Status)
      → UniqueIds xs
      → status_of i xs ≡ some st
      → from st ≡ false
      → count_where (λ p. p.id == i && from p.status) xs ≡ 0
  count-missed [] st h e f = refl
  count-missed (x ∷ xs) st h e f = elim (Bool-cases (x.id == i)) [
    | inl hit ↦ ground (arith, count_and-le i from xs, same_id x.id i xs)
    | inr miss ↦ ground (arith, count-missed xs st h.1)
  ]

  -- A payout whose status the update does not look for keeps it.
  pub status_of-updated_kept :
      (xs : List Payout) (st : Status)
      → status_of i xs ≡ some st
      → from st ≡ false
      → status_of i (updated xs) ≡ some st
  status_of-updated_kept [] st e f = e
  status_of-updated_kept (x ∷ xs) st e f = ground (arith, keep x, status_of-updated_kept xs st)
