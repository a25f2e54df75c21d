-- ===== src/Ledger/Sweeps.antt =====
-- src/ledger/in-memory-ledger.ts: sweeps of a source wallet into a target wallet.
use coin_manage.Base.{
  ℕ, ◌+◌, String, Bool, true, false, not, ◌||◌, Option, none, some, List, [], ◌∷◌, opt_eq, str_le,
  take, sort, filter, any, or_else, if◌then◌else◌,
}
use coin_manage.Base.Int.{ℤ}
use coin_manage.Base.Map.{insert, values}
use coin_manage.Base.Action.{domain_error, pure, throw_if, modify, ◌>>=◌, ◌>>◌}
use coin_manage.Contracts.{Host}
use coin_manage.Ledger.Types.Records.{
  SweepStatus, planned, queued, broadcasted, confirmed, failed, skipped, Network, SweepRecord,
  FeeReference, NetworkFee,
}
use coin_manage.Ledger.State.{InMemoryLedger, Method, get_mutable_sweep, random_uuid}
use coin_manage.Ledger.Fees.{record_fee_if}

pub record SweepInput : Type 0 where
  pub source_wallet_code : String
  pub source_address : String
  pub target_address : String
  pub currency_id : Option ℕ
  pub network : Option Network
  pub amount : ℤ
  pub external_ref : Option String
  pub note : Option String

abbrev pub put_sweep : String → SweepRecord → Method (Unit {0})
put_sweep sweep_id sweep =
    modify (λ s. record s { sweep_records = insert sweep_id sweep s.sweep_records })

abbrev pub is_planned : SweepStatus → Bool
is_planned planned = true
is_planned _ = false

abbrev pub is_queued : SweepStatus → Bool
is_queued queued = true
is_queued _ = false

abbrev pub is_sent : SweepStatus → Bool
is_sent broadcasted = true
is_sent _ = false

abbrev pub queued_sweep : Option String → String → SweepRecord → SweepRecord
queued_sweep note now_iso sweep = record sweep {
  status = queued;
  note = or_else note sweep.note;
  queued_at = or_else sweep.queued_at (some now_iso);
}

abbrev pub attempted_sweep : Option String → String → SweepRecord → SweepRecord
attempted_sweep note now_iso sweep = record sweep {
  attempt_count = sweep.attempt_count + 1;
  last_attempt_at = some now_iso;
  note = or_else note sweep.note;
}

abbrev pub broadcasted_sweep : String → Option String → String → SweepRecord → SweepRecord
broadcasted_sweep tx_hash note now_iso sweep = record sweep {
  status = broadcasted;
  tx_hash = some tx_hash;
  note = or_else note sweep.note;
  broadcasted_at = some now_iso;
}

abbrev pub confirmed_sweep : Option String → String → SweepRecord → SweepRecord
confirmed_sweep note now_iso sweep = record sweep {
  status = confirmed;
  note = or_else note sweep.note;
  confirmed_at = some now_iso;
}

abbrev pub failed_sweep : String → String → SweepRecord → SweepRecord
failed_sweep reason now_iso sweep = record sweep {
  status = failed;
  note = some reason;
  confirmed_at = some now_iso;
}

module _ (host : Host) where
  unfoldable pub create_sweep_record : SweepInput → String → Method SweepRecord
  unfolding random_uuid
  create_sweep_record input now_iso = do
    sweep_id ← random_uuid host
    let sweep : SweepRecord = record {
      sweep_id = sweep_id;
      source_wallet_code = input.source_wallet_code;
      source_address = input.source_address;
      target_address = input.target_address;
      currency_id = input.currency_id;
      network = input.network;
      amount = input.amount;
      status = planned;
      external_ref = input.external_ref;
      tx_hash = none;
      note = input.note;
      attempt_count = 0;
      created_at = now_iso;
      queued_at = none;
      last_attempt_at = none;
      broadcasted_at = none;
      confirmed_at = none;
    }
    put_sweep sweep_id sweep
    pure sweep

unfoldable pub mark_sweep_queued : String → Option String → String → Method SweepRecord
unfolding get_mutable_sweep
mark_sweep_queued sweep_id note now_iso = do
  sweep ← get_mutable_sweep sweep_id
  throw_if (not (is_planned sweep.status))
      (domain_error 409 "INVALID_STATE" "sweep must be planned")
  put_sweep sweep_id (queued_sweep note now_iso sweep)
  pure (queued_sweep note now_iso sweep)

unfoldable pub record_sweep_attempt : String → Option String → String → Method SweepRecord
unfolding get_mutable_sweep
record_sweep_attempt sweep_id note now_iso = do
  sweep ← get_mutable_sweep sweep_id
  throw_if (not (is_queued sweep.status)) (domain_error 409 "INVALID_STATE" "sweep must be queued")
  put_sweep sweep_id (attempted_sweep note now_iso sweep)
  pure (attempted_sweep note now_iso sweep)

unfoldable pub mark_sweep_broadcasted :
    String → String → Option String → String → Method SweepRecord
unfolding get_mutable_sweep
mark_sweep_broadcasted sweep_id tx_hash note now_iso = do
  sweep ← get_mutable_sweep sweep_id
  throw_if (not (is_planned sweep.status || is_queued sweep.status))
      (domain_error 409 "INVALID_STATE" "sweep must be planned or queued")
  put_sweep sweep_id (broadcasted_sweep tx_hash note now_iso sweep)
  pure (broadcasted_sweep tx_hash note now_iso sweep)

unfoldable pub confirm_sweep :
    String → Option String → Option NetworkFee → String → Method SweepRecord
unfolding get_mutable_sweep record_fee_if
confirm_sweep sweep_id note fee now_iso = do
  sweep ← get_mutable_sweep sweep_id
  throw_if (not (is_planned sweep.status || is_sent sweep.status))
      (domain_error 409 "INVALID_STATE" "sweep must be planned or broadcasted")
  put_sweep sweep_id (confirmed_sweep note now_iso sweep)
  record_fee_if FeeReference.sweep sweep_id sweep.tx_hash fee now_iso
  pure (confirmed_sweep note now_iso sweep)

unfoldable pub fail_sweep : String → String → String → Method SweepRecord
unfolding get_mutable_sweep
fail_sweep sweep_id reason now_iso = do
  sweep ← get_mutable_sweep sweep_id
  throw_if (not (is_planned sweep.status || is_queued sweep.status || is_sent sweep.status))
      (domain_error 409 "INVALID_STATE" "sweep must be planned, queued or broadcasted")
  put_sweep sweep_id (failed_sweep reason now_iso sweep)
  pure (failed_sweep reason now_iso sweep)

-- `right.createdAt.localeCompare(left.createdAt)`: the newest first.
abbrev newer : SweepRecord → SweepRecord → Bool
newer a b = str_le b.created_at a.created_at

unfoldable pub list_sweep_records : ℕ → InMemoryLedger → List SweepRecord
list_sweep_records limit s = take limit (sort newer (values s.sweep_records))

abbrev same_status : SweepStatus → SweepStatus → Bool
same_status planned planned = true
same_status queued queued = true
same_status broadcasted broadcasted = true
same_status confirmed confirmed = true
same_status failed failed = true
same_status skipped skipped = true
same_status _ _ = false

unfoldable pub list_sweep_records_by_statuses :
    List SweepStatus → ℕ → InMemoryLedger → List SweepRecord
list_sweep_records_by_statuses statuses limit s = take limit (
    sort newer
      (filter (λ (w : SweepRecord). any (same_status w.status) statuses) (values s.sweep_records)))

find_ref : String → List SweepRecord → Option SweepRecord
find_ref external_ref [] = none
find_ref external_ref (sweep ∷ sweeps) =
    if opt_eq sweep.external_ref external_ref then some sweep else find_ref external_ref sweeps

unfoldable pub find_sweep_by_external_ref : String → InMemoryLedger → Option SweepRecord
unfolding find_ref
find_sweep_by_external_ref external_ref s = find_ref external_ref (values s.sweep_records)
