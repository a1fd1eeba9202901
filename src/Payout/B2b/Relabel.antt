-- ===== src/Payout/B2b/Relabel.antt =====
-- Updates that leave the ids and the statuses of payouts as they are, and what the other payouts see
-- of an update (services/payout.go).
use zyranet_api.Base.{
  ℕ, ◌<◌, ◌≡◌, refl, ◌∙◌, Bool, List, [], ◌∷◌, arith, count_where, update_where, All, Bool-cases,
  inl, inr,
}
use zyranet_api.Payout.Rows.{Payout, PayDb}
use zyranet_api.Payout.Invariant.{UniqueIds, IsSound, has_id, status_of}
use zyranet_api.Payout.Laws.{backed_mono}

-- An update of the rows that fit `test`.
module _ (test : Payout → Bool) (u : Payout → Payout) (same_id : (p : Payout) → (u p).id ≡ p.id)
    (same_status : (p : Payout) → (u p).status ≡ p.status) where
  pub status_of-relabelled :
      (j : ℕ) (xs : List Payout) → status_of j (update_where test u xs) ≡ status_of j xs
  status_of-relabelled j [] = refl
  status_of-relabelled j (x ∷ xs) =
      ground (arith, same_id x, same_status x, status_of-relabelled j xs)

  count-relabelled :
      (k : ℕ) (xs : List Payout)
      → count_where (has_id k) (update_where test u xs) ≡ count_where (has_id k) xs
  count-relabelled k [] = refl
  count-relabelled k (x ∷ xs) = ground (arith, same_id x, count-relabelled k xs)

  relabelled-UniqueIds : (xs : List Payout) → UniqueIds xs → UniqueIds (update_where test u xs)
  relabelled-UniqueIds [] h = tt
  relabelled-UniqueIds (x ∷ xs) h = elim (Bool-cases (test x)) [
    | inl hit ↦
        rw hit (rw (same_id x) (count-relabelled x.id xs ∙ h.0), relabelled-UniqueIds xs h.1)
    | inr miss ↦ rw miss (count-relabelled x.id xs ∙ h.0, relabelled-UniqueIds xs h.1)
  ]

  relabelled-below :
      (n : ℕ) (xs : List Payout)
      → All (λ p. p.id < n) xs
      → All (λ p. p.id < n) (update_where test u xs)
  relabelled-below n [] h = tt
  relabelled-below n (x ∷ xs) h = ground (arith, same_id x, relabelled-below n xs h.1)

  pub relabelled-IsSound :
      (db : PayDb) → IsSound db → IsSound (record db { payouts = update_where test u db.payouts })
  relabelled-IsSound db v = record {
    unique = relabelled-UniqueIds db.payouts v.unique;
    below = relabelled-below db.next_payout db.payouts v.below;
    backed =
        backed_mono db.payouts (update_where test u db.payouts) db.payments
          (λ j h. rw (status_of-relabelled j db.payouts) h) v.backed;
  }
