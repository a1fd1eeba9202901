-- ===== src/Ledger/Statement/Laws.antt =====
-- A statement reconciles (services/agent_ledger.go, `BuildAgentStatement`).
use zyranet_api.Base.{◌≡◌, ap, ◌∙◌, sym, List, [], ◌∷◌, arith}
use zyranet_api.Int.{ℤ, pos, negsuc, ◌+ℤ◌, ◌-ℤ◌, +ℤ_comm, sum_of, int_laws, pos_part, neg_part}
use zyranet_api.Words.{wrap64, add64}
use zyranet_api.Ledger.Rows.{Entry, EntryType}
use zyranet_api.Ledger.Postings.{amount_of}
use zyranet_api.Ledger.Statement.{Statement, Figures, tally, walk}

wrap64-add : (a b : ℤ) → wrap64 (wrap64 a +ℤ b) ≡ wrap64 (a +ℤ b)
unfolding wrap64 ◌+ℤ◌
wrap64-add (pos a) (pos b) = ground arith
wrap64-add (pos a) (negsuc b) = ground arith
wrap64-add (negsuc a) (pos b) = ground arith
wrap64-add (negsuc a) (negsuc b) = ground arith

-- The six money figures together.
abbrev pub figures_total : Figures → ℤ
figures_total f =
    f.issued +ℤ f.commission +ℤ f.returned +ℤ f.commission_reversed +ℤ f.handover +ℤ f.adjustment

wrap64-add_right : (r y : ℤ) → wrap64 (r +ℤ wrap64 y) ≡ wrap64 (r +ℤ y)
wrap64-add_right r y = ap wrap64 (+ℤ_comm r (wrap64 y)) ∙ wrap64-add y r ∙ ap wrap64 (+ℤ_comm y r)

replaced :
    (before after x a : ℤ)
    → after +ℤ x ≡ before +ℤ wrap64 (x +ℤ a)
    → wrap64 after ≡ wrap64 (before +ℤ a)
replaced before after x a h =
    let split : after ≡ before -ℤ x +ℤ wrap64 (x +ℤ a) =
      omega (int_laws, ap pos_part h, ap neg_part h) in
    let joined : before -ℤ x +ℤ (x +ℤ a) ≡ before +ℤ a = omega int_laws in
    ap wrap64 split ∙ wrap64-add_right (before -ℤ x) (x +ℤ a) ∙ ap wrap64 joined

tally-total :
    (kind : EntryType) (e : Entry) (f : Figures)
    → wrap64 (figures_total (tally kind e f)) ≡ wrap64 (figures_total f +ℤ e.amount)
unfolding tally add64
tally-total EntryType.issue e f = replaced (figures_total f) _ f.issued e.amount (omega int_laws)
tally-total EntryType.commission e f =
    replaced (figures_total f) _ f.commission e.amount (omega int_laws)
tally-total EntryType.return e f = replaced (figures_total f) _ f.returned e.amount (omega int_laws)
tally-total EntryType.commission_reversal e f =
    replaced (figures_total f) _ f.commission_reversed e.amount (omega int_laws)
tally-total EntryType.handover e f =
    replaced (figures_total f) _ f.handover e.amount (omega int_laws)
tally-total EntryType.adjustment e f =
    replaced (figures_total f) _ f.adjustment e.amount (omega int_laws)
tally-total EntryType.reversal e f =
    replaced (figures_total f) _ f.adjustment e.amount (omega int_laws)

-- Walking the entries adds their sum to the figures, modulo 2^64: no kind of entry is left out of the
-- figures, and none is counted twice.
pub walk-figures_total :
    (run : ℤ) (f : Figures) (xs : List Entry)
    → wrap64 (figures_total (walk run f xs).1) ≡ wrap64 (figures_total f +ℤ sum_of amount_of xs)
unfolding walk
walk-figures_total run f [] = ap wrap64 (omega int_laws)
walk-figures_total run f (e ∷ es) =
    walk-figures_total (add64 run e.amount) (tally e.kind e f) es
    ∙ sym (wrap64-add (figures_total (tally e.kind e f)) (sum_of amount_of es))
    ∙ ap (λ t. wrap64 (t +ℤ sum_of amount_of es)) (tally-total e.kind e f)
    ∙ wrap64-add (figures_total f +ℤ e.amount) (sum_of amount_of es)
    ∙ ap wrap64 (omega int_laws)
