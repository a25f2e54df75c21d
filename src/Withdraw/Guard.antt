-- ===== src/Withdraw/Guard.antt =====
-- src/application/services/withdraw-guard-service.ts: whether a withdrawal may be requested and broadcast. The
-- gateway's resources and `TronWeb.address.fromPrivateKey` are arguments.
use coin_manage.Base.{
  ℕ, ◌-◌, ◌/◌, ◌%◌, String, Bool, true, false, not, ◌&&◌, ◌||◌, Option, none, some, List, [], ◌∷◌,
  ◌++◌, any, filter, truthy, ltb, concat, ◌==◌, if◌then◌else◌,
}
use coin_manage.Base.Int.{ℤ, pos, ltb_ℤ}
use coin_manage.Base.Action.{domain_error, Result, ok, err}
use coin_manage.Money.{to_text, pad_start}
use coin_manage.Withdraw.Policy.{AddressPolicies, assert_address_allowed}

pub data TronGatewayMode : Type 0 where
  mock trc20 : TronGatewayMode

pub data SignerMode : Type 0 where
  hot offline_stub hybrid : SignerMode

-- `getAccountResources` of the gateway.
pub record AccountResources : Type 0 where
  pub trx_balance_sun : ℕ
  pub bandwidth_limit : ℕ
  pub bandwidth_used : ℕ
  pub energy_limit : ℕ
  pub energy_used : ℕ

pub record HotWalletReadiness : Type 0 where
  pub ready : Bool
  pub signer_mode : SignerMode
  pub hot_signing_enabled : Bool
  pub signer_healthy : Bool
  pub signer_address : Option String
  pub cold_withdraw_min_kori : String
  pub trx_balance_sun : String
  pub available_bandwidth : ℕ
  pub available_energy : ℕ
  pub min_trx_sun : String
  pub min_bandwidth : ℕ
  pub min_energy : ℕ
  pub failures : List String

-- The configured amounts are not negative; `policies` is the repository of the policy service,
-- where there is one.
pub record WithdrawGuardOptions : Type 0 where
  pub tron_gateway_mode : TronGatewayMode
  pub signer_mode : SignerMode
  pub hot_wallet_address : String
  pub hot_wallet_private_key : String
  pub cold_withdraw_min_amount : ℕ
  pub min_trx_sun : ℕ
  pub min_bandwidth : ℕ
  pub min_energy : ℕ
  pub restricted_destination_addresses : List String
  pub policies : Option AddressPolicies

-- What the guard asks of others: the address of a private key, where the library does not throw, and
-- the resources of an address.
pub record Chain : Type 0 where
  pub from_private_key : String → Option String
  pub get_account_resources : String → Result AccountResources

-- `Number.MAX_SAFE_INTEGER`
abbrev pub max_safe_integer : ℕ
max_safe_integer = 9007199254740991

abbrev pub is_trc20 : TronGatewayMode → Bool
is_trc20 TronGatewayMode.trc20 = true
is_trc20 TronGatewayMode.mock = false

abbrev pub is_offline : SignerMode → Bool
is_offline SignerMode.offline_stub = true
is_offline _ = false

abbrev pub is_hybrid : SignerMode → Bool
is_hybrid SignerMode.hybrid = true
is_hybrid _ = false

-- `PLACEHOLDER_PRIVATE_KEYS.has(key)`
abbrev pub is_placeholder : String → Bool
is_placeholder key =
    (key == "replace-with-private-key") || (key == "dev-only-private-key-change-me")

-- `formatKoriAmount` on an amount that is not negative.
unfoldable pub format_cold_amount : ℕ → String
format_cold_amount value =
    concat (to_text (value / 1_000_000) "")
      (concat "." (pad_start 6 (to_text (value % 1_000_000) "")))

pub record Signer : Type 0 where
  pub healthy : Bool
  pub address : Option String

abbrev unhealthy : Option String → Signer
unhealthy address = record { healthy = false; address = address }

-- `if (c) failures.push(name);`
abbrev pub when_failed : Bool → String → List String
when_failed true name = name ∷ []
when_failed false name = []

module _ (chain : Chain) (options : WithdrawGuardOptions) where
  unfoldable pub get_signer_address : Signer
  get_signer_address =
      if is_placeholder options.hot_wallet_private_key
      then unhealthy none
      else elim (chain.from_private_key options.hot_wallet_private_key) [
        | none ↦ unhealthy none
        | some address ↦
            if not (truthy address)
            then unhealthy none
            else if not (address == options.hot_wallet_address)
            then unhealthy (some address)
            else record { healthy = true; address = some address }
      ]

  unfoldable pub requires_offline_signing : Option ℤ → Bool
  requires_offline_signing amount =
      if is_offline options.signer_mode
      then true
      else if not (is_hybrid options.signer_mode)
      then false
      else elim amount [
        | none ↦ false
        | some units ↦ not (ltb_ℤ units (pos options.cold_withdraw_min_amount))
      ]

  -- The readiness of a gateway that is a mock, and of a signer that is not there.
  abbrev pub readiness_of_mock : HotWalletReadiness
  readiness_of_mock = record {
    ready = true;
    signer_mode = options.signer_mode;
    hot_signing_enabled = not (is_offline options.signer_mode);
    signer_healthy = true;
    signer_address = some options.hot_wallet_address;
    cold_withdraw_min_kori = format_cold_amount options.cold_withdraw_min_amount;
    trx_balance_sun = "0";
    available_bandwidth = max_safe_integer;
    available_energy = max_safe_integer;
    min_trx_sun = to_text options.min_trx_sun "";
    min_bandwidth = options.min_bandwidth;
    min_energy = options.min_energy;
    failures = [];
  }

  abbrev pub readiness_of_stub : HotWalletReadiness
  readiness_of_stub = record {
    ready = false;
    signer_mode = options.signer_mode;
    hot_signing_enabled = false;
    signer_healthy = false;
    signer_address = some options.hot_wallet_address;
    cold_withdraw_min_kori = format_cold_amount options.cold_withdraw_min_amount;
    trx_balance_sun = "0";
    available_bandwidth = 0;
    available_energy = 0;
    min_trx_sun = to_text options.min_trx_sun "";
    min_bandwidth = options.min_bandwidth;
    min_energy = options.min_energy;
    failures = "offline_signing_required" ∷ [];
  }

  unfoldable pub failures_of : AccountResources → List String
  failures_of resources =
      when_failed (not get_signer_address.healthy) "signer_unhealthy"
      ++ when_failed (ltb resources.trx_balance_sun options.min_trx_sun) "trx_low"
      ++ when_failed
          (ltb (resources.bandwidth_limit - resources.bandwidth_used) options.min_bandwidth)
          "bandwidth_low"
      ++ when_failed (ltb (resources.energy_limit - resources.energy_used) options.min_energy)
          "energy_low"

  abbrev pub none_of : List String → Bool
  none_of [] = true
  none_of (name ∷ names) = false

  -- `Math.max(0, limit - used)` is the subtraction of natural numbers.
  abbrev pub readiness_of : AccountResources → HotWalletReadiness
  readiness_of resources = record {
    ready = none_of (failures_of resources);
    signer_mode = options.signer_mode;
    hot_signing_enabled = true;
    signer_healthy = get_signer_address.healthy;
    signer_address = get_signer_address.address;
    cold_withdraw_min_kori = format_cold_amount options.cold_withdraw_min_amount;
    trx_balance_sun = to_text resources.trx_balance_sun "";
    available_bandwidth = resources.bandwidth_limit - resources.bandwidth_used;
    available_energy = resources.energy_limit - resources.energy_used;
    min_trx_sun = to_text options.min_trx_sun "";
    min_bandwidth = options.min_bandwidth;
    min_energy = options.min_energy;
    failures = failures_of resources;
  }

  unfoldable pub get_hot_wallet_readiness : Result HotWalletReadiness
  get_hot_wallet_readiness =
      if not (is_trc20 options.tron_gateway_mode)
      then ok readiness_of_mock
      else if is_offline options.signer_mode
      then ok readiness_of_stub
      else elim (chain.get_account_resources options.hot_wallet_address) [
        | err x ↦ err x
        | ok resources ↦ ok (readiness_of resources)
      ]

  -- The readiness that the error carries as details is left out.
  unfoldable pub assert_hot_wallet_ready : String → String → Result (Unit {0})
  assert_hot_wallet_ready code message = elim get_hot_wallet_readiness [
    | err x ↦ err x
    | ok readiness ↦ if readiness.ready then ok tt else err (domain_error 503 code message)
  ]

  abbrev pub is_restricted : String → Bool
  is_restricted address =
      any (λ (a : String). a == address) (filter truthy options.restricted_destination_addresses)

  -- `input.walletAddress && input.walletAddress === input.toAddress`
  abbrev pub is_source : Option String → String → Bool
  is_source none to_address = false
  is_source (some wallet) to_address = truthy wallet && (wallet == to_address)

  unfoldable pub assert_destination_allowed : String → Option String → Result (Unit {0})
  assert_destination_allowed to_address wallet_address =
      if is_restricted to_address
      then err (
          domain_error 400 "WITHDRAW_DESTINATION_RESTRICTED"
            "withdraw destination is a managed system wallet")
      else if is_source wallet_address to_address
      then err (
          domain_error 400 "WITHDRAW_DESTINATION_RESTRICTED"
            "withdraw destination cannot match the source wallet")
      else ok tt

  -- `await this.options.policyService?.assertAddressAllowed(toAddress)`
  abbrev pub assert_policy : String → Result (Unit {0})
  assert_policy to_address = elim options.policies [
    | none ↦ ok tt
    | some policies ↦ assert_address_allowed to_address policies
  ]

  abbrev pub and_then : Result (Unit {0}) → Result (Unit {0}) → Result (Unit {0})
  and_then (err x) rest = err x
  and_then (ok _) rest = rest

  unfoldable pub assert_request_allowed : String → Option String → Option ℤ → Result (Unit {0})
  unfolding assert_destination_allowed assert_hot_wallet_ready requires_offline_signing
  assert_request_allowed to_address wallet_address amount =
      and_then (assert_destination_allowed to_address wallet_address) (
        and_then (assert_policy to_address) (
          if requires_offline_signing amount
          then ok tt
          else assert_hot_wallet_ready "WITHDRAW_CIRCUIT_OPEN" "withdraw request circuit is open"))

  unfoldable pub assert_broadcast_allowed : String → Option ℤ → Result (Unit {0})
  unfolding assert_destination_allowed assert_hot_wallet_ready requires_offline_signing
  assert_broadcast_allowed to_address amount =
      and_then (assert_destination_allowed to_address none) (
        and_then (assert_policy to_address) (
          if requires_offline_signing amount
          then err (
              domain_error 409 "WITHDRAW_OFFLINE_SIGN_REQUIRED"
                "withdrawal requires offline signing")
          else assert_hot_wallet_ready "WITHDRAW_BROADCAST_BLOCKED"
              "hot wallet is not ready for broadcast"))
