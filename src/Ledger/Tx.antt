-- ===== src/Ledger/Tx.antt =====
-- The database that the ledger and the vouchers work on, and its transactions: state and failure,
-- where a failure drops what the transaction wrote. A statement fails where the environment says so,
-- and where it would break a unique index.
use zyranet_api.Base.{
  ℕ, suc, ◌≡◌, refl, Bool, false, Option, none, some, List, [], ◌∷◌, ◌++◌, if◌then◌else◌,
  exists_where, opt_eq, ◌⊎◌, inl, inr,
}
use zyranet_api.Int.{ℤ}
use zyranet_api.Text.{Text}
use zyranet_api.Models.{Zone, Package, Voucher, Customer}
use zyranet_api.Ledger.Rows.{Agent, Batch, AgentVoucher, Entry, IdemKey}

-- Each table has its auto-increment counter where rows are inserted.
pub record Db : Type 0 where
  pub agents : List Agent
  pub zones : List Zone
  pub packages : List Package
  pub customers : List Customer
  pub vouchers : List Voucher
  pub batches : List Batch
  pub agent_vouchers : List AgentVoucher
  pub entries : List Entry
  pub keys : List IdemKey
  pub next_customer : ℕ
  pub next_voucher : ℕ
  pub next_batch : ℕ
  pub next_agent_voucher : ℕ
  pub next_entry : ℕ

-- The refusals of `ledgerErr`, with what their messages print.
pub data Refusal : Type 0 where
  bad_key agent_not_found key_reused bad_quantity upfront_not_owner bad_funding : Refusal
  missing_mpesa_code bad_method agent_inactive invalid_zone not_agent_zone : Refusal
  package_not_in_zone package_inactive free_package : Refusal
  over_credit short_float : ℤ → ℤ → Refusal
  nothing_picked nothing_unsold not_held : Refusal
  already_gone used changed : ℕ → Refusal
  bad_amount code_recorded zero_amount note_missing : Refusal
  entry_not_found not_reversible already_reversed : Refusal

-- The HTTP status that a refusal carries.
unfoldable pub http_status : Refusal → ℕ
http_status bad_key = 400
http_status upfront_not_owner = 403
http_status agent_not_found = 404
http_status entry_not_found = 404
http_status key_reused = 409
http_status (changed _) = 409
http_status code_recorded = 409
http_status already_reversed = 409
http_status _ = 422

-- `fault` is an error of the database or of the random source.
pub data Failure : Type 0 where
  refused : Refusal → Failure
  fault : Failure

pub data Result {ℓ} (A : Type ℓ) : Type ℓ where
  ok : A → Result A
  err : Failure → Result A

-- The statements that can fail.
pub data Stmt : Type 0 where
  lock_agent find_key find_key_again find_zone find_agent_zone find_package read_balance : Stmt
  read_opening find_period read_closing create_batch save_key commit find_held find_entry
        count_reversals count_handovers reload :
      Stmt
  create_voucher create_agent_voucher create_entry void_voucher mark_returned : ℕ → Stmt
  count_code : ℕ → ℕ → Stmt

-- What a request meets: the time, which statements fail, the random voucher code of each attempt
-- for each voucher (`none` if the random source fails), SHA-256 in hexadecimal, and what other
-- requests have committed by the time that a transaction of this one has failed.
pub record Env : Type 0 where
  pub now : ℕ
  pub fails : Stmt → Bool
  pub draw : ℕ → ℕ → Option Text
  pub sha256 : Text → Text
  pub others : Db → Db

abbrev pub Tx {ℓ} : Type ℓ → Type ℓ
Tx A = Db → Result (A × Db)

module _ {ℓ} {A : Type ℓ} where
  abbrev pub pure : A → Tx A
  pure a db = ok (a, db)

  abbrev pub gets : (Db → A) → Tx A
  gets f db = ok (f db, db)

  abbrev pub fail : Failure → Tx A
  fail e db = err e

  abbrev pub or_fail : Option A → Failure → Tx A
  or_fail none e = fail e
  or_fail (some a) e = pure a

-- `abbrev`, so that a step that is done computes on.
module _ {ℓ κ} {A : Type ℓ} {B : Type κ} where
  abbrev pub and_then : Result (A × Db) → (A → Tx B) → Result (B × Db)
  and_then (ok (a, db)) f = f a db
  and_then (err e) f = err e

infixl 5 ◌>>=◌ ◌>>◌
abbrev pub ◌>>=◌ {ℓ κ} : {A : Type ℓ} {B : Type κ} → Tx A → (A → Tx B) → Tx B
◌>>=◌ m f db = and_then (m db) f

abbrev pub ◌>>◌ {ℓ} : {B : Type ℓ} → Tx (Unit {0}) → Tx B → Tx B
m >> k = m >>= λ _. k

abbrev pub fail_if : Bool → Failure → Tx (Unit {0})
fail_if c e db = if c then err e else ok (tt, db)

abbrev pub refuse_if : Bool → Refusal → Tx (Unit {0})
refuse_if c r = fail_if c (refused r)

abbrev pub modify : (Db → Db) → Tx (Unit {0})
modify f db = ok (tt, f db)

-- Inversion of a successful bind.
and_then-eq-ok {ℓ κ} :
    {A : Type ℓ} {B : Type κ} (m : Tx A) (f : A → Tx B) (db : Db) {r : B × Db} (o : Result (A × Db))
    → m db ≡ o
    → and_then o f ≡ ok r
    → (a : A) × (db' : Db) × (m db ≡ ok (a, db')) × (f a db' ≡ ok r)
and_then-eq-ok m f db (ok (a, db')) e k = (a, db', e, k)
and_then-eq-ok m f db (err x) e k = cc

pub >>=-eq-ok {ℓ κ} :
    {A : Type ℓ} {B : Type κ} (m : Tx A) (f : A → Tx B) (db : Db) {r : B × Db}
    → (m >>= f) db ≡ ok r
    → (a : A) × (db' : Db) × (m db ≡ ok (a, db')) × (f a db' ≡ ok r)
>>=-eq-ok m f db h = and_then-eq-ok m f db (m db) refl h

pub Result-cases {ℓ} :
    {A : Type ℓ} (r : Result A) → ((e : Failure) × (r ≡ err e)) ⊎ ((a : A) × (r ≡ ok a))
Result-cases (ok a) = inr (a, refl)
Result-cases (err e) = inl (e, refl)

-- Another entry already reverses the one that `e` reverses.
abbrev pub is_reversal_twin : Option ℕ → List Entry → Bool
is_reversal_twin none xs = false
is_reversal_twin (some k) xs = exists_where (λ y. opt_eq y.reverses_id (some k)) xs

abbrev pub append_entry : Entry → Db → Db
append_entry e db = record db {
  entries = db.entries ++ record e { id = db.next_entry } ∷ [];
  next_entry = suc db.next_entry;
}

-- INSERT of a ledger entry: it gets the next id, and `reverses_id` is unique.
unfoldable pub insert_entry : Env → ℕ → Entry → Tx ℕ
insert_entry env i e db =
    if env.fails (create_entry i)
    then err fault
    else if is_reversal_twin e.reverses_id db.entries
    then err fault
    else ok (db.next_entry, append_entry e db)
