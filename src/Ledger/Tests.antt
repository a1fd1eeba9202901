-- ===== src/Ledger/Tests.antt =====
-- Requests to the agent ledger at concrete values (services/agent_ledger.go).
use zyranet_api.Ledger.Entries.Laws.{record_adjustment-Moves, Moves, record_handover-Moves}
use zyranet_api.Ledger.Commission.{commission_for_nearest, commission_for}
use zyranet_api.Base.{
  ℕ, ◌≡◌, refl, true, false, some, [], ◌∷◌, ◌++◌, arith, All, find_first, ◌+◌, ◌*◌, ◌<◌, ◌≤◌,
}
use zyranet_api.Int.{pos, negsuc, ◌-ℤ◌}
use zyranet_api.Words.{wrap64, neg64}
use zyranet_api.Text.{Part, bytes, text_eq, trim_space, to_lower, to_upper, sprint}
use zyranet_api.Ledger.Rows.{Agent, Entry, EntryType, is_reversible}
use zyranet_api.Ledger.Tx.{Db, ok, Tx, insert_entry}
use zyranet_api.Ledger.Idempotency.{
  again, first_time, run_idempotent, transaction, lock, replayed, save, request_hash,
  valid_idempotency_key,
}
use zyranet_api.Ledger.Idempotency.Laws.{run_idempotent_retry, KeepsKeys}
use zyranet_api.Ledger.Postings.{new_entry}
use zyranet_api.Ledger.Samples.{env, owner, shop, key_row}
use zyranet_api.Ledger.Entries.{
  HandoverRequest, Receipt, record_handover, record_adjustment, reverse_entry, valid_method,
  load_entry, count_live_codes, handover_body, accepted_handover, adjustment_body,
  accepted_adjustment, reversal_body, accepted_reversal, find_original, count_reversals_of,
  handover_parts, reversal_parts, is_reversed, is_entry,
}
use zyranet_api.Ledger.Entries.Reversal.{reverse_entry_once, reverse_entry_cancels, IsNegatable}
use zyranet_api.Ledger.Statement.{Statement}

abbrev cash : HandoverRequest
cash = record {
  agent_id = 2;
  amount = pos 1500;
  method = bytes " Cash";
  reference = [];
  note = bytes "till";
  key = bytes "key-0001";
}

abbrev cash_entry : Entry
cash_entry = record (new_entry env owner 2 EntryType.handover (negsuc 1499)) {
  id = 1;
  method = bytes "cash";
  note = bytes "till";
}

abbrev handed : Db
handed = record shop {
  entries = cash_entry ∷ [];
  keys =
      key_row (bytes "key-0001") (bytes "handover")
        (request_hash env (handover_parts env owner 2 (pos 1500) (bytes "cash") [] (bytes "till")))
        1
      ∷ [];
  next_entry = 2;
}

handed_test :
    record_handover env owner cash shop
    ≡ (ok (record { entry = cash_entry; replay = false }), handed)
unfolding record_handover accepted_handover handover_body count_live_codes load_entry run_idempotent
    transaction lock replayed save request_hash sprint valid_method valid_idempotency_key text_eq
    trim_space to_lower to_upper insert_entry new_entry neg64 wrap64 ◌-ℤ◌
handed_test = refl

record_handover-Moves_example : Moves 2 3 (pos 0 -ℤ pos 1500) shop.entries handed.entries
record_handover-Moves_example =
    record_handover-Moves env owner cash 3 shop handed
      (record { entry = cash_entry; replay = false }) (ground arith) handed_test refl

-- A correction of the same agent's balance afterwards, under another key.
abbrev correction : Entry
correction = record (new_entry env owner 2 EntryType.adjustment (negsuc 199)) {
  id = 2;
  note = bytes "gift";
}

abbrev adjusted : Db
adjusted = record handed {
  entries = cash_entry ∷ correction ∷ [];
  keys =
      handed.keys
      ++ key_row (bytes "key-0002") (bytes "adjustment")
          (request_hash env (
            Part.txt (bytes "adjustment")
            ∷ Part.num (pos 2)
            ∷ Part.num (negsuc 199)
            ∷ Part.txt (bytes "gift")
            ∷ []))
          2
        ∷ [];
  next_entry = 3;
}

adjusted_test :
    record_adjustment env owner 2 (negsuc 199) (bytes " gift") (bytes "key-0002") handed
    ≡ (ok (record { entry = correction; replay = false }), adjusted)
unfolding record_adjustment accepted_adjustment adjustment_body load_entry run_idempotent
    transaction lock replayed save request_hash sprint valid_idempotency_key text_eq trim_space
    insert_entry new_entry
adjusted_test = refl

-- The handover turns out to be a mistake.
abbrev undo : Entry
undo = record (new_entry env owner 2 EntryType.reversal (pos 1500)) {
  id = 2;
  method = bytes "cash";
  note = bytes "mistake";
  reverses_id = some 1;
}

abbrev undone : Db
undone = record handed {
  entries = cash_entry ∷ undo ∷ [];
  keys =
      handed.keys
      ++ key_row (bytes "key-0003") (bytes "reversal")
          (request_hash env (reversal_parts env owner 2 1 (bytes "mistake"))) 2
        ∷ [];
  next_entry = 3;
}

undone_test :
    reverse_entry env owner 2 1 (bytes "mistake") (bytes "key-0003") handed
    ≡ (ok (record { entry = undo; replay = false }), undone)
unfolding reverse_entry accepted_reversal reversal_body find_original count_reversals_of load_entry
    run_idempotent transaction lock replayed save request_hash sprint valid_idempotency_key text_eq
    trim_space insert_entry new_entry neg64 wrap64 ◌-ℤ◌
undone_test = refl

handed-IsNegatable : All (λ e. IsNegatable e.amount) handed.entries
unfolding new_entry
handed-IsNegatable = (omega arith, tt)

reverse_entry_cancels_example :
    (orig : Entry) × (find_first (is_entry 1 2 1) handed.entries ≡ some orig)
    × (is_reversible orig.kind ≡ true)
    × Moves 2 3 (pos 0 -ℤ orig.amount) handed.entries undone.entries
    × (is_reversed undone.entries 1 ≡ true)
reverse_entry_cancels_example =
    reverse_entry_cancels env owner 2 3 1 (bytes "mistake") (bytes "key-0003") handed undone
      (record { entry = undo; replay = false }) (ground arith) handed-IsNegatable undone_test refl

abbrev undo_again : Receipt
undo_again = record { entry = undo; replay = true }

-- Sent again, the request is replayed.
undone_again_test :
    reverse_entry env owner 2 1 (bytes "mistake") (bytes "key-0003") undone
    ≡ (ok undo_again, undone)
unfolding reverse_entry accepted_reversal reversal_body load_entry run_idempotent transaction lock
    replayed request_hash sprint valid_idempotency_key text_eq trim_space new_entry
undone_again_test = refl

reverse_entry_once_example : undo_again.replay ≡ true
unfolding new_entry
reverse_entry_once_example =
    reverse_entry_once env owner 2 1 (bytes "mistake") (bytes "key-0003") undone undone undo_again
      refl undone_again_test

abbrev gift : Agent → Tx ℕ
gift = adjustment_body env owner (bytes "gift") (negsuc 199)

gift-KeepsKeys : KeepsKeys gift
unfolding adjustment_body insert_entry
gift-KeepsKeys a s r s' h = (ground arith, ground arith)

abbrev gifted : Db
gifted = record shop {
  entries = record correction { id = 1 } ∷ [];
  keys = key_row (bytes "key-0002") (bytes "adjustment") (bytes "hash") 1 ∷ [];
  next_entry = 2;
}

gifted_test :
    run_idempotent env owner 2 (bytes "key-0002") (bytes "adjustment") (bytes "hash") gift shop
    ≡ (ok (first_time 1), gifted)
unfolding run_idempotent transaction lock replayed save valid_idempotency_key text_eq
    adjustment_body insert_entry new_entry
gifted_test = refl

run_idempotent_retry_example :
    run_idempotent env owner 2 (bytes "key-0002") (bytes "adjustment") (bytes "hash") gift gifted
    ≡ (ok (again 1), gifted)
run_idempotent_retry_example =
    run_idempotent_retry env env owner 2 (bytes "key-0002") (bytes "adjustment") (bytes "hash") gift
      gift shop gifted (first_time 1) gift-KeepsKeys gifted_test refl refl refl refl

percent_kind : text_eq (bytes "percent") (bytes "fixed") ≡ false
unfolding text_eq
percent_kind = refl

commission_for_nearest_example :
    (c : ℕ) × (commission_for (bytes "percent") (pos 1250) (pos 999) ≡ pos c)
    × (2 * (10000 * c) ≤ 2 * (999 * 1250) + 10000)
    × (2 * (999 * 1250) + 10000 < 2 * (10000 * c) + 20000)
commission_for_nearest_example =
    commission_for_nearest (bytes "percent") 999 1250 percent_kind (ground arith) (ground arith)

record_adjustment-Moves_example : Moves 2 3 (negsuc 199) handed.entries adjusted.entries
record_adjustment-Moves_example =
    record_adjustment-Moves env owner 2 3 (negsuc 199) (bytes " gift") (bytes "key-0002") handed
      adjusted (record { entry = correction; replay = false }) (ground arith) adjusted_test refl
