-- ===== src/Mpesa/Stk/Evolves.antt =====
-- How the calls about payments may change the tables (services/mpesa.go, services/credit.go): which
-- payments stay as they are, and that balances move with the log.
use zyranet_api.Base.{
  ℕ, ◌≡◌, refl, ap, ◌∙◌, Bool, true, false, Option, List, [], ◌∷◌, ◌++◌, ◌==◌, ◌⊎◌, inl, inr,
  if◌then◌else◌, Bool-cases, All, update_where, append_assoc, append-nil,
}
use zyranet_api.Int.{ℤ, pos, leb_ℤ, ◌+ℤ◌, int_laws, sum_of, sum_of-append}
use zyranet_api.Models.{Customer}
use zyranet_api.Mpesa.Routes.{Channel}
use zyranet_api.Mpesa.Stk.Rows.{StkStatus, StkPayment, StkState, CreditLog}
use zyranet_api.Mpesa.Stk.Success.{is_completed, has_placeholder}
use zyranet_api.Mpesa.Stk.Query.{is_pending_status}

-- What is settled with a payment.
pub record Settlement : Type 0 where
  pub status : StkStatus
  pub amount : ℤ
  pub package_id : Option ℕ
  pub zone_id : ℕ
  pub collected_via : Channel

abbrev pub settlement : StkPayment → Settlement
settlement p = record {
  status = p.status;
  amount = p.amount;
  package_id = p.package_id;
  zone_id = p.zone_id;
  collected_via = p.collected_via;
}

-- A receipt changes only where it was a placeholder.
abbrev pub KeepsReceipt : StkPayment → StkPayment → Type 0
KeepsReceipt p q = (q.receipt ≡ p.receipt) ⊎ (has_placeholder p ≡ true)

-- A payment is settled as before, or it was not completed and does not wait afterwards.
abbrev pub RowKept : StkPayment → StkPayment → Type 0
RowKept p q =
    (q.id ≡ p.id)
    × (((settlement q ≡ settlement p) × KeepsReceipt p q)
        ⊎ ((is_completed p.status ≡ false) × (is_pending_status q.status ≡ false)))

abbrev pub Kept : List StkPayment → List StkPayment → Type 0
Kept [] [] = Unit
Kept (p ∷ ps) (q ∷ qs) = RowKept p q × Kept ps qs
Kept [] (q ∷ qs) = ⊥
Kept (p ∷ ps) [] = ⊥

RowKept-refl : (p : StkPayment) → RowKept p p
RowKept-refl p = (refl, inl (refl, inl refl))

pub Kept-refl : (ps : List StkPayment) → Kept ps ps
Kept-refl [] = tt
Kept-refl (p ∷ ps) = (RowKept-refl p, Kept-refl ps)

KeepsReceipt-trans : (p q r : StkPayment) → KeepsReceipt p q → KeepsReceipt q r → KeepsReceipt p r
KeepsReceipt-trans p q r (inr h) k = inr h
KeepsReceipt-trans p q r (inl h) (inl k) = inl (k ∙ h)
KeepsReceipt-trans p q r (inl h) (inr k) = inr (rw (← h) k)

RowKept-trans : (p q r : StkPayment) → RowKept p q → RowKept q r → RowKept p r
RowKept-trans p q r (i, inl (h, c)) (j, inl (k, d)) =
    (j ∙ i, inl (k ∙ h, KeepsReceipt-trans p q r c d))
RowKept-trans p q r (i, inl (h, c)) (j, inr (k, d)) =
    (j ∙ i, inr (rw (← ap (λ t. t.status) h) k, d))
RowKept-trans p q r (i, inr (h, c)) (j, inl (k, d)) = (j ∙ i, inr (h, rw (ap (λ t. t.status) k) c))
RowKept-trans p q r (i, inr (h, c)) (j, inr (k, d)) = (j ∙ i, inr (h, d))

pub Kept-trans : (ps qs rs : List StkPayment) → Kept ps qs → Kept qs rs → Kept ps rs
Kept-trans [] [] [] h k = tt
Kept-trans (p ∷ ps) (q ∷ qs) (r ∷ rs) h k =
    (RowKept-trans p q r h.0 k.0, Kept-trans ps qs rs h.1 k.1)
Kept-trans [] [] (r ∷ rs) h k = absurd k
Kept-trans [] (q ∷ qs) rs h k = absurd h
Kept-trans (p ∷ ps) [] rs h k = absurd h
Kept-trans (p ∷ ps) (q ∷ qs) [] h k = absurd k

pub Kept-update_where :
    (test : StkPayment → Bool) (f : StkPayment → StkPayment)
    → ((p : StkPayment) → test p ≡ true → RowKept p (f p))
    → (ps : List StkPayment) → Kept ps (update_where test f ps)
Kept-update_where test f each [] = tt
Kept-update_where test f each (p ∷ ps) = elim (Bool-cases (test p)) [
  | inl hit ↦ rw hit (each p hit, Kept-update_where test f each ps)
  | inr miss ↦ rw miss (RowKept-refl p, Kept-update_where test f each ps)
]

-- What is logged for a customer.
abbrev pub amount_for : ℕ → CreditLog → ℤ
amount_for id l = if l.customer_id == id then l.amount else pos 0

abbrev pub logged_for : ℕ → List CreditLog → ℤ
logged_for id = sum_of (amount_for id)

-- Every line of the log adds.
abbrev pub AllCredits : List CreditLog → Type 0
AllCredits = All (λ l. leb_ℤ (pos 0) l.amount ≡ true)

-- Each customer's balance moves by what is logged for it; customers are added at the end only.
abbrev pub Moved : List CreditLog → List Customer → List Customer → Type 0
Moved logs [] ds = Unit
Moved logs (c ∷ cs) [] = ⊥
Moved logs (c ∷ cs) (d ∷ ds) =
    (d.id ≡ c.id) × (d.credit_balance ≡ c.credit_balance +ℤ logged_for c.id logs) × Moved logs cs ds

pub Moved-refl : (cs : List Customer) → Moved [] cs cs
Moved-refl [] = tt
Moved-refl (c ∷ cs) = (refl, omega int_laws, Moved-refl cs)

pub Moved-append : (cs added : List Customer) → Moved [] cs (cs ++ added)
Moved-append [] added = tt
Moved-append (c ∷ cs) added = (refl, omega int_laws, Moved-append cs added)

moves_add : (a b x y z w : ℤ) → b ≡ a +ℤ x → z ≡ b +ℤ y → w ≡ x +ℤ y → z ≡ a +ℤ w
moves_add a b x y z w p q r = rw (q, p, r) (omega int_laws)

Moved-trans :
    (l m : List CreditLog) (cs ds es : List Customer)
    → Moved l cs ds
    → Moved m ds es
    → Moved (l ++ m) cs es
Moved-trans l m [] ds es h k = tt
Moved-trans l m (c ∷ cs) [] es h k = absurd h
Moved-trans l m (c ∷ cs) (d ∷ ds) [] h k = absurd k
Moved-trans l m (c ∷ cs) (d ∷ ds) (e ∷ es) h k =
    let same : logged_for d.id m ≡ logged_for c.id m = ap (λ t. logged_for t m) h.0 in
    let split : logged_for c.id (l ++ m) ≡ logged_for c.id l +ℤ logged_for c.id m =
      sum_of-append (amount_for c.id) l m in
    (
      k.0 ∙ h.0,
      moves_add c.credit_balance d.credit_balance _ _ _ _ h.1
          (k.1 ∙ ap (λ t. d.credit_balance +ℤ t) same) split,
      Moved-trans l m cs ds es h.2 k.2,
    )

-- An update that leaves ids and balances alone.
pub Moved-update_where :
    (test : Customer → Bool) (f : Customer → Customer)
    → ((c : Customer) → ((f c).id ≡ c.id) × ((f c).credit_balance ≡ c.credit_balance))
    → (cs : List Customer) → Moved [] cs (update_where test f cs)
Moved-update_where test f same [] = tt
Moved-update_where test f same (c ∷ cs) = elim (Bool-cases (test c)) [
  | inl hit ↦ rw hit ((same c).0, rw (same c).1 (omega int_laws), Moved-update_where test f same cs)
  | inr miss ↦ rw miss (refl, omega int_laws, Moved-update_where test f same cs)
]

-- A step from one state of the tables to another.
pub record Evolves (s t : StkState) : Type 0 where
  pub kept : Kept s.payments t.payments
  pub logged : List CreditLog
  pub logs : t.credit_logs ≡ s.credit_logs ++ logged
  pub balances : AllCredits logged → Moved logged s.base.customers t.base.customers

pub Evolves-unlogged :
    {s t : StkState}
    → Kept s.payments t.payments
    → t.credit_logs ≡ s.credit_logs
    → Moved [] s.base.customers t.base.customers
    → Evolves s t
Evolves-unlogged {s} kept same moved = record {
  kept = kept;
  logged = [];
  logs = rw (append-nil s.credit_logs) same;
  balances = λ h. moved;
}

pub Evolves-refl : (s : StkState) → Evolves s s
Evolves-refl s = Evolves-unlogged (Kept-refl s.payments) refl (Moved-refl s.base.customers)

AllCredits-split : (l m : List CreditLog) → AllCredits (l ++ m) → AllCredits l × AllCredits m
AllCredits-split [] m h = (tt, h)
AllCredits-split (x ∷ l) m h = let rest = AllCredits-split l m h.1 in ((h.0, rest.0), rest.1)

pub Evolves-trans : {s t u : StkState} → Evolves s t → Evolves t u → Evolves s u
Evolves-trans {s} {t} {u} a b = record {
  kept = Kept-trans s.payments t.payments u.payments a.kept b.kept;
  logged = a.logged ++ b.logged;
  logs = rw (b.logs, a.logs) (append_assoc s.credit_logs a.logged b.logged);
  balances = λ h.
      let parts = AllCredits-split a.logged b.logged h in
      Moved-trans a.logged b.logged s.base.customers t.base.customers u.base.customers
        (a.balances parts.0) (b.balances parts.1);
}
