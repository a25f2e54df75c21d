-- ===== src/Withdraw/Tests.antt =====
-- Policies, the guard, the queue and the shown status at work, and the theorems on them.
use coin_manage.Base.{
  ℕ, String, not, true, ◌&&◌, none, some, List, [], ◌∷◌, ◌≡◌, refl, arith, if◌then◌else◌,
}
use coin_manage.Base.Int.{pos}
use coin_manage.Base.Map.{lookup, values}
use coin_manage.Base.Action.{domain_error, ok, err}
use coin_manage.Ledger.Types.Funds.{Withdrawal}
use coin_manage.Ledger.State.{InMemoryLedger}
use coin_manage.Ledger.Calls.{Call, perform, run, empty_ledger}
use coin_manage.Ledger.Tests.{host, today, id, up_to_broadcast, sent, sent_found, ticks-IsDistinct}
use coin_manage.Withdraw.Policy.{
  PolicyInput, WithdrawAddressPolicyType, upsert_address_policy, assert_address_allowed, is_blocked,
  get_address_policies, upsert_address_policy-blocks,
}
use coin_manage.Withdraw.Guard.{
  TronGatewayMode, SignerMode, WithdrawGuardOptions, Chain, requires_offline_signing,
  get_hot_wallet_readiness, get_signer_address, failures_of, assert_request_allowed,
  assert_broadcast_allowed,
}
use coin_manage.Withdraw.GuardLaws.{
  is_allowed, is_clear, can_send, assert_broadcast_allowed_lem, assert_request_allowed-broadcast,
}
use coin_manage.Withdraw.Queue.{
  JobKind, InMemoryJob, JobEnd, WithdrawJobQueue, Drained, drain, new_job, drain-ends,
}
use coin_manage.Withdraw.Status.{
  map_withdrawal_to_sync_status, shown_may_become, perform-sync_status,
}

abbrev block_input : PolicyInput
block_input = record {
  address = "T-evil";
  policy_type = WithdrawAddressPolicyType.blacklist;
  reason = none;
  created_by = "root";
}

upsert_address_policy-blocks_example :
    assert_address_allowed "T-evil" (upsert_address_policy block_input today []).1
    ≡ err (
        domain_error 400 "WITHDRAW_DESTINATION_BLOCKED" "withdraw destination is blocked by policy")
upsert_address_policy-blocks_example = upsert_address_policy-blocks block_input today [] refl

abbrev pub chain : Chain
chain = record {
  from_private_key = λ key. some "T-hot";
  get_account_resources = λ address. ok (record {
    trx_balance_sun = 9000000;
    bandwidth_limit = 5000;
    bandwidth_used = 20;
    energy_limit = 70000;
    energy_used = 1000;
  });
}

abbrev pub options : WithdrawGuardOptions
options = record {
  tron_gateway_mode = TronGatewayMode.trc20;
  signer_mode = SignerMode.hybrid;
  hot_wallet_address = "T-hot";
  hot_wallet_private_key = "secret";
  cold_withdraw_min_amount = 1000;
  min_trx_sun = 5000000;
  min_bandwidth = 500;
  min_energy = 10000;
  restricted_destination_addresses = "T-hot" ∷ [];
  policies = some [];
}

assert_broadcast_allowed_lem_example :
    is_allowed (assert_broadcast_allowed chain options "T-bob" (some (pos 10))) ≡ (
      is_clear chain options "T-bob"
      && not (requires_offline_signing chain options (some (pos 10)))
      && can_send chain options)
assert_broadcast_allowed_lem_example =
    assert_broadcast_allowed_lem chain options "T-bob" (some (pos 10))

request_allowed :
    assert_request_allowed chain options "T-bob" (some "T-ann") (some (pos 10)) ≡ ok tt
unfolding assert_request_allowed get_hot_wallet_readiness get_signer_address failures_of
    assert_address_allowed is_blocked get_address_policies values
request_allowed = refl

assert_request_allowed-broadcast_example :
    assert_broadcast_allowed chain options "T-bob" (some (pos 10)) ≡ (
      if requires_offline_signing chain options (some (pos 10))
      then err
          (domain_error 409 "WITHDRAW_OFFLINE_SIGN_REQUIRED" "withdrawal requires offline signing")
      else ok tt)
assert_request_allowed-broadcast_example =
    assert_request_allowed-broadcast chain options "T-bob" (some "T-ann") (some (pos 10))
      request_allowed

-- Reconciling throws.
abbrev handle : InMemoryJob → ℕ → JobEnd × ℕ × List InMemoryJob
handle job n = elim job.kind [
  | JobKind.reconcile ↦ (JobEnd.threw none, n, [])
  | other ↦ (JobEnd.finished, n, [])
]

abbrev stamp : ℕ → String
stamp n = "0"

abbrev queue : WithdrawJobQueue
queue = record {
  jobs = new_job JobKind.dispatch (some "w1") ∷ new_job JobKind.reconcile none ∷ [];
  failed_jobs = [];
}

drain-ends_example :
    let (e, q', n) = drain handle stamp 2 queue 0 in Drained handle stamp queue 0 e q' n
drain-ends_example = drain-ends handle stamp 2 queue 0 (λ job v. ground arith) (omega arith)

abbrev confirmed_state : InMemoryLedger
confirmed_state =
    perform host today (Call.confirm_withdrawal id none) (run host up_to_broadcast empty_ledger)

perform-sync_status_example :
    (w' : Withdrawal) × (lookup id confirmed_state.withdrawals ≡ some w')
    × (shown_may_become (map_withdrawal_to_sync_status sent) (map_withdrawal_to_sync_status w')
        ≡ true)
perform-sync_status_example =
    perform-sync_status host ticks-IsDistinct up_to_broadcast today
      (Call.confirm_withdrawal id none) id sent sent_found
