-- ===== src/Ledger/Statement.antt =====
-- An agent's statement (services/agent_ledger.go: `AgentStatement`, `BuildAgentStatement`), for the
-- ledger's figures; the memo of vouchers sold is left out.
pub mod Laws
use zyranet_api.Base.{
  ℕ, Bool, ◌&&◌, not, ◌||◌, List, [], ◌∷◌, ◌==◌, ltb, leb, if◌then◌else◌, select,
}
use zyranet_api.Int.{ℤ, pos, sum_of, eq_ℤ}
use zyranet_api.Words.{add64, fits64}
use zyranet_api.Ledger.Rows.{Entry, EntryType}
use zyranet_api.Ledger.Tx.{Env, Result, ok, err, fault, read_opening, find_period, read_closing}
use zyranet_api.Ledger.Postings.{amount_of}

-- An entry with the balance after it.
pub record StatementLine : Type 0 where
  pub entry : Entry
  pub balance_after : ℤ

-- The figures by kind of entry.
pub record Figures : Type 0 where
  pub issued : ℤ
  pub issued_count : ℤ
  pub commission : ℤ
  pub returned : ℤ
  pub returned_count : ℤ
  pub commission_reversed : ℤ
  pub handover : ℤ
  pub adjustment : ℤ

pub record Statement : Type 0 where
  pub opening : ℤ
  pub closing : ℤ
  pub figures : Figures
  pub lines : List StatementLine

abbrev pub no_figures : Figures
no_figures = record {
  issued = pos 0;
  issued_count = pos 0;
  commission = pos 0;
  returned = pos 0;
  returned_count = pos 0;
  commission_reversed = pos 0;
  handover = pos 0;
  adjustment = pos 0;
}

-- The `switch` on the entry's type.
unfoldable pub tally : EntryType → Entry → Figures → Figures
tally EntryType.issue e f = record f {
  issued = add64 f.issued e.amount;
  issued_count = add64 f.issued_count (pos e.voucher_count);
}
tally EntryType.commission e f = record f { commission = add64 f.commission e.amount }
tally EntryType.return e f = record f {
  returned = add64 f.returned e.amount;
  returned_count = add64 f.returned_count (pos e.voucher_count);
}
tally EntryType.commission_reversal e f = record f {
  commission_reversed = add64 f.commission_reversed e.amount;
}
tally EntryType.handover e f = record f { handover = add64 f.handover e.amount }
tally EntryType.adjustment e f = record f { adjustment = add64 f.adjustment e.amount }
tally EntryType.reversal e f = record f { adjustment = add64 f.adjustment e.amount }

-- `ORDER BY created_at, id`.
abbrev pub comes_before : Entry → Entry → Bool
comes_before a b = ltb a.created_at b.created_at || a.created_at == b.created_at && leb a.id b.id

unfoldable pub insert_sorted : Entry → List Entry → List Entry
insert_sorted e [] = e ∷ []
insert_sorted e (x ∷ xs) = if comes_before e x then e ∷ x ∷ xs else x ∷ insert_sorted e xs

unfoldable pub order_by_created : List Entry → List Entry
order_by_created [] = []
order_by_created (x ∷ xs) = insert_sorted x (order_by_created xs)

-- The loop over the period's entries: the balance, the lines and the figures.
unfoldable pub walk : ℤ → Figures → List Entry → ℤ × Figures × List StatementLine
walk run f [] = (run, f, [])
walk run f (e ∷ es) =
    let after = add64 run e.amount in
    let (last, figures, lines) = walk after (tally e.kind e f) es in
    (last, figures, record { entry = e; balance_after = after } ∷ lines)

abbrev pub is_before : ℕ → ℕ → ℕ → Entry → Bool
is_before org_id agent_id time e =
    e.org_id == org_id && e.agent_id == agent_id && ltb e.created_at time

abbrev pub is_within : ℕ → ℕ → ℕ → ℕ → Entry → Bool
is_within org_id agent_id from to e =
    e.org_id == org_id && e.agent_id == agent_id && leb from e.created_at && ltb e.created_at to

abbrev pub sum_before : ℕ → ℕ → ℕ → List Entry → ℤ
sum_before org_id agent_id time entries =
    sum_of amount_of (select (is_before org_id agent_id time) entries)

abbrev pub period : ℕ → ℕ → ℕ → ℕ → List Entry → List Entry
period org_id agent_id from to entries =
    order_by_created (select (is_within org_id agent_id from to) entries)

-- The last step: a closing balance that is not the opening one with the lines is refused.
abbrev pub reconcile : ℤ → ℤ → ℤ × Figures × List StatementLine → Result Statement
reconcile opening closing (last, figures, lines) =
    if eq_ℤ closing last
    then ok (record { opening = opening; closing = closing; figures = figures; lines = lines })
    else err fault

-- A sum that does not fit an int64 cannot be read.
unfoldable pub build_agent_statement : Env → ℕ → ℕ → ℕ → ℕ → List Entry → Result Statement
build_agent_statement env org_id agent_id from to entries =
    let opening = sum_before org_id agent_id from entries in
    let closing = sum_before org_id agent_id to entries in
    if env.fails read_opening || not (fits64 opening)
    then err fault
    else if env.fails find_period
    then err fault
    else if env.fails read_closing || not (fits64 closing)
    then err fault
    else reconcile opening closing
        (walk opening no_figures (period org_id agent_id from to entries))
