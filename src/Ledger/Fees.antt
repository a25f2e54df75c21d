-- ===== src/Ledger/Fees.antt =====
-- src/ledger/in-memory-ledger.ts: the network fee that a confirmation records, for withdrawals and
-- for sweeps, and the daily comparison of ledger and chain.
use coin_manage.Base.{
  ℕ, ◌+◌, String, Bool, true, false, Option, none, some, List, [], ◌∷◌, map, ◌==◌, truthy, joined,
  str_le, str_take, take, sort, filter, or_default, if◌then◌else◌,
}
use coin_manage.Base.Int.{ℤ, pos, ◌+ℤ◌, ◌-ℤ◌}
use coin_manage.Base.Map.{Map, lookup, insert, values}
use coin_manage.Base.Action.{modify}
use coin_manage.Ledger.Types.Records.{
  FeeReference, NetworkFee, NetworkFeeReceipt, NetworkFeeJournal, FeeTotals,
  NetworkFeeDailySnapshot,
}
use coin_manage.Ledger.State.{InMemoryLedger, Method}

-- The receipt and the journal entry of one fee, under the key `${id}:${txHash}`.
unfoldable pub record_network_fee :
    FeeReference → String → String → NetworkFee → String → Method (Unit {0})
record_network_fee reference id tx_hash fee now_iso = modify (λ s. record s {
  network_fee_receipts =
      insert (joined id tx_hash)
        (record {
          fee_receipt_id = joined id tx_hash;
          reference_type = reference;
          reference_id = id;
          tx_hash = fee.tx_hash;
          currency_code = "TRX";
          fee_sun = fee.fee_sun;
          energy_used = fee.energy_used;
          bandwidth_used = fee.bandwidth_used;
          confirmed_at = now_iso;
          created_at = now_iso;
        })
        s.network_fee_receipts;
  network_fee_journals =
      insert (joined id tx_hash)
        (record {
          snapshot_date = str_take 10 now_iso;
          reference_type = reference;
          fee_sun = fee.fee_sun;
          created_at = now_iso;
        })
        s.network_fee_journals;
})

-- `if (networkFee && txHash) { … }`
unfoldable pub record_fee_if :
    FeeReference → String → Option String → Option NetworkFee → String → Method (Unit {0})
unfolding record_network_fee
record_fee_if reference id none fee now_iso s = modify (λ x. x) s
record_fee_if reference id (some tx_hash) none now_iso s = modify (λ x. x) s
record_fee_if reference id (some tx_hash) (some fee) now_iso s =
    if truthy tx_hash
    then record_network_fee reference id tx_hash fee now_iso s
    else modify (λ x. x) s

abbrev same_reference : FeeReference → FeeReference → Bool
same_reference FeeReference.withdrawal FeeReference.withdrawal = true
same_reference FeeReference.sweep FeeReference.sweep = true
same_reference _ _ = false

abbrev matches_text : Option String → String → Bool
matches_text none text = true
matches_text (some wanted) text = if truthy wanted then text == wanted else true

unfoldable pub list_network_fee_receipts :
    Option FeeReference → Option String → Option ℕ → InMemoryLedger → List NetworkFeeReceipt
list_network_fee_receipts reference id limit s = take (or_default limit 100) (
    sort (λ (a b : NetworkFeeReceipt). str_le b.created_at a.created_at)
      (filter (λ (r : NetworkFeeReceipt). matches_text id r.reference_id)
        (filter
          (λ (r : NetworkFeeReceipt). elim reference [
            | none ↦ true
            | some wanted ↦ same_reference r.reference_type wanted
          ])
          (values s.network_fee_receipts))))

abbrev pub no_fees : FeeTotals
no_fees = record {
  ledger_fee_sun = pos 0;
  actual_fee_sun = pos 0;
  ledger_fee_count = 0;
  actual_fee_count = 0;
}

abbrev pub empty_snapshot : String → NetworkFeeDailySnapshot
empty_snapshot date = record {
  snapshot_date = date;
  currency_code = "TRX";
  totals = no_fees;
  gap_fee_sun = pos 0;
  withdrawal = no_fees;
  sweep = no_fees;
}

abbrev pub add_actual : ℤ → FeeTotals → FeeTotals
add_actual fee t = record t {
  actual_fee_sun = t.actual_fee_sun +ℤ fee;
  actual_fee_count = t.actual_fee_count + 1;
}

abbrev pub add_ledger : ℤ → FeeTotals → FeeTotals
add_ledger fee t = record t {
  ledger_fee_sun = t.ledger_fee_sun +ℤ fee;
  ledger_fee_count = t.ledger_fee_count + 1;
}

-- One change of the totals, and of those of the reference's kind.
abbrev pub bump :
    FeeReference → (FeeTotals → FeeTotals) → NetworkFeeDailySnapshot → NetworkFeeDailySnapshot
bump FeeReference.withdrawal f d = record d { totals = f d.totals; withdrawal = f d.withdrawal }
bump FeeReference.sweep f d = record d { totals = f d.totals; sweep = f d.sweep }

-- `ensureSnapshot(date)`, and the change written back.
abbrev pub bump_day :
    String
    → FeeReference
    → (FeeTotals → FeeTotals)
    → Map NetworkFeeDailySnapshot
    → Map NetworkFeeDailySnapshot
bump_day date reference f days =
    insert date (bump reference f (or_default (lookup date days) (empty_snapshot date))) days

unfoldable pub add_receipts :
    List NetworkFeeReceipt → Map NetworkFeeDailySnapshot → Map NetworkFeeDailySnapshot
add_receipts [] days = days
add_receipts (r ∷ rs) days =
    add_receipts rs
      (bump_day (str_take 10 r.confirmed_at) r.reference_type (add_actual r.fee_sun) days)

unfoldable pub add_journals :
    List NetworkFeeJournal → Map NetworkFeeDailySnapshot → Map NetworkFeeDailySnapshot
add_journals [] days = days
add_journals (j ∷ js) days =
    add_journals js (bump_day j.snapshot_date j.reference_type (add_ledger j.fee_sun) days)

abbrev pub with_gap : NetworkFeeDailySnapshot → NetworkFeeDailySnapshot
with_gap d = record d { gap_fee_sun = d.totals.actual_fee_sun -ℤ d.totals.ledger_fee_sun }

unfoldable pub list_network_fee_daily_snapshots :
    Option ℕ → InMemoryLedger → List NetworkFeeDailySnapshot
unfolding add_receipts add_journals
list_network_fee_daily_snapshots limit s = take (or_default limit 7) (
    sort (λ (a b : NetworkFeeDailySnapshot). str_le b.snapshot_date a.snapshot_date)
      (map with_gap (
        values (
          add_journals (values s.network_fee_journals)
            (add_receipts (values s.network_fee_receipts) [])))))
