-- ===== src/Withdraw/Policy.antt =====
-- src/domain/withdraw-policy/types.ts, src/infrastructure/persistence/in-memory-withdraw-policy-repository.ts
-- and src/application/services/withdraw-policy-service.ts: the policies on withdrawal addresses.
use coin_manage.Base.{
  ℕ, String, Bool, true, false, ◌&&◌, Option, none, some, List, [], ◌∷◌, ◌≡◌, refl, arith, any,
  filter, take, sort, str_le, truthy, or_default, is_some, joined, ◌==◌, if◌then◌else◌, eq_refl,
}
use coin_manage.Base.Map.{Map, lookup, insert, erase, values}
use coin_manage.Base.Action.{domain_error, Result, ok, err, Action}

pub data WithdrawAddressPolicyType : Type 0 where
  blacklist whitelist internal_blocked : WithdrawAddressPolicyType

pub record WithdrawAddressPolicy : Type 0 where
  pub address : String
  pub policy_type : WithdrawAddressPolicyType
  pub reason : Option String
  pub created_by : String
  pub created_at : String
  pub updated_at : String

abbrev pub policy_text : WithdrawAddressPolicyType → String
policy_text WithdrawAddressPolicyType.blacklist = "blacklist"
policy_text WithdrawAddressPolicyType.whitelist = "whitelist"
policy_text WithdrawAddressPolicyType.internal_blocked = "internal_blocked"

abbrev pub build_key : String → WithdrawAddressPolicyType → String
build_key address policy_type = joined address (policy_text policy_type)

-- The repository in memory.
abbrev pub AddressPolicies : Type 0
AddressPolicies = Map WithdrawAddressPolicy

pub record PolicyInput : Type 0 where
  pub address : String
  pub policy_type : WithdrawAddressPolicyType
  pub reason : Option String
  pub created_by : String

abbrev pub new_policy : PolicyInput → Option WithdrawAddressPolicy → String → WithdrawAddressPolicy
new_policy input existing now_iso = record {
  address = input.address;
  policy_type = input.policy_type;
  reason = input.reason;
  created_by = elim existing [ none ↦ input.created_by | some policy ↦ policy.created_by ];
  created_at = elim existing [ none ↦ now_iso | some policy ↦ policy.created_at ];
  updated_at = now_iso;
}

unfoldable pub upsert_address_policy :
    PolicyInput → String → Action AddressPolicies WithdrawAddressPolicy
upsert_address_policy input now_iso policies =
    let key = build_key input.address input.policy_type in
    let policy = new_policy input (lookup key policies) now_iso in
    (ok policy, insert key policy policies)

unfoldable pub get_address_policies : String → AddressPolicies → List WithdrawAddressPolicy
get_address_policies address policies =
    filter (λ (p : WithdrawAddressPolicy). p.address == address) (values policies)

abbrev same_type : WithdrawAddressPolicyType → WithdrawAddressPolicyType → Bool
same_type WithdrawAddressPolicyType.blacklist WithdrawAddressPolicyType.blacklist = true
same_type WithdrawAddressPolicyType.whitelist WithdrawAddressPolicyType.whitelist = true
same_type WithdrawAddressPolicyType.internal_blocked WithdrawAddressPolicyType.internal_blocked =
    true
same_type _ _ = false

-- `!input.address || policy.address === input.address`
abbrev wanted_address : Option String → WithdrawAddressPolicy → Bool
wanted_address none policy = true
wanted_address (some address) policy = if truthy address then policy.address == address else true

abbrev wanted_type : Option WithdrawAddressPolicyType → WithdrawAddressPolicy → Bool
wanted_type none policy = true
wanted_type (some policy_type) policy = same_type policy.policy_type policy_type

unfoldable pub list_address_policies :
    Option String
    → Option WithdrawAddressPolicyType
    → Option ℕ
    → AddressPolicies
    → List WithdrawAddressPolicy
list_address_policies address policy_type limit policies = take (or_default limit 100) (
    sort (λ (a b : WithdrawAddressPolicy). str_le b.updated_at a.updated_at)
      (filter (wanted_type policy_type) (filter (wanted_address address) (values policies))))

unfoldable pub delete_address_policy :
    String → WithdrawAddressPolicyType → Action AddressPolicies Bool
delete_address_policy address policy_type policies =
    let key = build_key address policy_type in
    (ok (is_some (lookup key policies)), erase key policies)

-- `BLOCKING_POLICY_TYPES.has(policyType)`
abbrev pub is_blocking_type : WithdrawAddressPolicyType → Bool
is_blocking_type WithdrawAddressPolicyType.blacklist = true
is_blocking_type WithdrawAddressPolicyType.whitelist = false
is_blocking_type WithdrawAddressPolicyType.internal_blocked = true

abbrev pub is_blocking : WithdrawAddressPolicy → Bool
is_blocking policy = is_blocking_type policy.policy_type

-- `policies.find(…)`, as the question whether there is one.
unfoldable pub is_blocked : String → AddressPolicies → Bool
is_blocked address policies = any is_blocking (get_address_policies address policies)

-- The details of the error, the type and the reason of the policy, are left out.
unfoldable pub assert_address_allowed : String → AddressPolicies → Result (Unit {0})
assert_address_allowed address policies =
    if is_blocked address policies
    then err (
        domain_error 400 "WITHDRAW_DESTINATION_BLOCKED" "withdraw destination is blocked by policy")
    else ok tt

abbrev blocks : String → WithdrawAddressPolicy → Bool
blocks address policy = (policy.address == address) && is_blocking policy

blocked-values :
    (address : String) (xs : List WithdrawAddressPolicy)
    → any is_blocking (filter (λ (p : WithdrawAddressPolicy). p.address == address) xs)
      ≡ any (blocks address) xs
blocked-values address [] = refl
blocked-values address (p ∷ xs) = ground (arith, blocked-values address xs)

blocked-insert :
    (address key : String) (policy : WithdrawAddressPolicy) (policies : AddressPolicies)
    → blocks address policy ≡ true
    → any (blocks address) (values (insert key policy policies)) ≡ true
unfolding values insert
blocked-insert address key policy [] h = ground (arith, h)
blocked-insert address key policy ((at, old) ∷ policies) h =
    ground (arith, h, blocked-insert address key policy policies h)

-- Once a blacklist or an internal block is set on an address, whatever policies there were, a
-- withdrawal to the address is refused.
pub upsert_address_policy-blocks :
    (input : PolicyInput) (now_iso : String) (policies : AddressPolicies)
    → is_blocking_type input.policy_type ≡ true
    → assert_address_allowed input.address (upsert_address_policy input now_iso policies).1
      ≡ err (
          domain_error 400 "WITHDRAW_DESTINATION_BLOCKED"
            "withdraw destination is blocked by policy")
unfolding assert_address_allowed is_blocked get_address_policies upsert_address_policy
upsert_address_policy-blocks input now_iso policies h =
    let key = build_key input.address input.policy_type in
    let policy = new_policy input (lookup key policies) now_iso in
    let here : blocks input.address policy ≡ true = rw (eq_refl input.address, h) refl in
    let q = blocked-insert input.address key policy policies here in
    let all = blocked-values input.address (values (insert key policy policies)) in rw (all, q) refl
