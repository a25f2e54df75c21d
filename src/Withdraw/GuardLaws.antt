-- ===== src/Withdraw/GuardLaws.antt =====
-- What src/application/services/withdraw-guard-service.ts lets through.
use coin_manage.Base.{
  ◌-◌, String, Bool, true, false, not, ◌&&◌, ◌||◌, Option, none, some, ◌≡◌, arith, leb, inl, inr,
  if◌then◌else◌,
}
use coin_manage.Base.Int.{ℤ}
use coin_manage.Base.Action.{domain_error, Result, ok, err, Result-cases}
use coin_manage.Withdraw.Policy.{assert_address_allowed, is_blocked}
use coin_manage.Withdraw.Guard.{
  AccountResources, WithdrawGuardOptions, Chain, is_trc20, is_offline, get_signer_address,
  requires_offline_signing, readiness_of, failures_of, get_hot_wallet_readiness,
  assert_hot_wallet_ready, is_restricted, assert_destination_allowed, assert_policy,
  assert_request_allowed, assert_broadcast_allowed,
}

abbrev pub is_allowed : Result (Unit {0}) → Bool
is_allowed (ok _) = true
is_allowed (err x) = false

module _ (chain : Chain) (options : WithdrawGuardOptions) where
  -- The hot wallet has what a broadcast takes.
  abbrev pub is_supplied : AccountResources → Bool
  is_supplied r =
      (get_signer_address chain options).healthy
      && leb options.min_trx_sun r.trx_balance_sun
      && leb options.min_bandwidth (r.bandwidth_limit - r.bandwidth_used)
      && leb options.min_energy (r.energy_limit - r.energy_used)

  -- The hot wallet can sign and send: a mock always can.
  abbrev pub can_send : Bool
  can_send =
      not (is_trc20 options.tron_gateway_mode)
      || not (is_offline options.signer_mode)
        && (elim (chain.get_account_resources options.hot_wallet_address) [
          | ok resources ↦ is_supplied resources
          | err x ↦ false
        ])

  -- Nothing forbids the destination.
  abbrev pub is_clear : String → Bool
  is_clear to_address = not (is_restricted chain options to_address) && (elim options.policies [
    | none ↦ true
    | some policies ↦ not (is_blocked to_address policies)
  ])

  supplied : (r : AccountResources) → (readiness_of chain options r).ready ≡ is_supplied r
  unfolding failures_of
  supplied r = ground arith

  ready_lem :
      (code message : String)
      → is_allowed (assert_hot_wallet_ready chain options code message) ≡ can_send
  unfolding assert_hot_wallet_ready get_hot_wallet_readiness
  ready_lem code message =
      elim (Result-cases (chain.get_account_resources options.hot_wallet_address)) [
        | inl (r, e) ↦ ground (arith, e, supplied r)
        | inr (x, e) ↦ ground (arith, e)
      ]

  policy_lem :
      (to_address : String)
      → is_allowed (assert_policy chain options to_address) ≡ (elim options.policies [
        | none ↦ true
        | some policies ↦ not (is_blocked to_address policies)
      ])
  unfolding assert_address_allowed
  policy_lem to_address = ground arith

  -- A broadcast is allowed exactly where nothing forbids the destination, the amount needs no
  -- offline signing, and the hot wallet has a signer with its own address and enough TRX, bandwidth
  -- and energy, or the gateway is a mock.
  pub assert_broadcast_allowed_lem :
      (to_address : String) (amount : Option ℤ)
      → is_allowed (assert_broadcast_allowed chain options to_address amount)
        ≡ (is_clear to_address && not (requires_offline_signing chain options amount) && can_send)
  unfolding assert_broadcast_allowed assert_destination_allowed
  assert_broadcast_allowed_lem to_address amount = ground (
    arith,
    policy_lem to_address,
    ready_lem "WITHDRAW_BROADCAST_BLOCKED" "hot wallet is not ready for broadcast",
  )

  -- A withdrawal whose request is allowed is allowed to be broadcast, as long as the chain and the
  -- policies stay the same, unless its amount needs offline signing: then the broadcast is refused
  -- with the status 409.
  pub assert_request_allowed-broadcast :
      (to_address : String) (wallet_address : Option String) (amount : Option ℤ)
      → assert_request_allowed chain options to_address wallet_address amount ≡ ok tt
      → assert_broadcast_allowed chain options to_address amount ≡ (
          if requires_offline_signing chain options amount
          then err (
              domain_error 409 "WITHDRAW_OFFLINE_SIGN_REQUIRED"
                "withdrawal requires offline signing")
          else ok tt)
  unfolding assert_request_allowed assert_broadcast_allowed assert_destination_allowed
      assert_hot_wallet_ready
  assert_request_allowed-broadcast to_address wallet_address amount h = ground (arith, h)
