-- ===== src/VirtualWallets/Policy.antt =====
-- src/application/services/virtual-wallet-lifecycle-policy-service.ts: whether a virtual wallet lets
-- deposits and withdrawals through. `Date.now()` and the configured cooldown are arguments.
use coin_manage.Base.{
  ℕ, ◌*◌, String, Bool, true, false, not, ◌&&◌, Option, none, some, ◌≡◌, refl, arith, concat,
  if◌then◌else◌,
}
use coin_manage.Base.Int.{ℤ, pos, ◌+ℤ◌, ltb_ℤ}
use coin_manage.Base.Action.{domain_error, Result, ok, err}
use coin_manage.Contracts.{Host}
use coin_manage.Ledger.Accounts.{AccountReference}
use coin_manage.VirtualWallets.Types.{
  VirtualWalletStatus, VirtualWalletActivationStatus, VirtualWalletBinding, is_active,
  same_activation,
}
use coin_manage.VirtualWallets.Store.{InMemoryVirtualWalletRepository}
use coin_manage.VirtualWallets.Repository.{get_virtual_wallet}

pub record Gate : Type 0 where
  pub deposit_allowed : Bool
  pub withdraw_allowed : Bool
  pub reason : String

-- `{ binding, gate }`
pub record GatedBinding : Type 0 where
  pub binding : Option VirtualWalletBinding
  pub gate : Gate

abbrev shut : String → Gate
shut reason = record { deposit_allowed = false; withdraw_allowed = false; reason = reason }

abbrev let_through : String → Gate
let_through reason = record { deposit_allowed = true; withdraw_allowed = true; reason = reason }

abbrev pub status_text : VirtualWalletStatus → String
status_text VirtualWalletStatus.active = "active"
status_text VirtualWalletStatus.retired = "retired"
status_text VirtualWalletStatus.disabled = "disabled"

abbrev pub activation_text : VirtualWalletActivationStatus → String
activation_text VirtualWalletActivationStatus.pending_trx_grant = "pending_trx_grant"
activation_text VirtualWalletActivationStatus.trx_granted = "trx_granted"
activation_text VirtualWalletActivationStatus.reclaim_pending = "reclaim_pending"
activation_text VirtualWalletActivationStatus.reclaimed = "reclaimed"
activation_text VirtualWalletActivationStatus.failed = "failed"

module _ (host : Host) (signup_wallet_cooldown_sec : ℕ) (now_ms : ℤ) where
  -- `new Date(binding.createdAt).getTime() + env.signupWalletCooldownSec * 1000`
  abbrev pub cooldown_until_ms : VirtualWalletBinding → ℤ
  cooldown_until_ms binding =
      host.time_ms binding.created_at +ℤ pos (signup_wallet_cooldown_sec * 1000)

  unfoldable pub evaluate : Option VirtualWalletBinding → Gate
  evaluate none = let_through "no managed virtual wallet"
  evaluate (some binding) =
      if not (is_active binding.status)
      then shut (concat "virtual wallet is " (status_text binding.status))
      else if not
          (same_activation binding.activation_status VirtualWalletActivationStatus.reclaimed)
      then shut (concat "activation not completed: " (activation_text binding.activation_status))
      else if ltb_ℤ now_ms (cooldown_until_ms binding)
      then shut (concat "signup cooldown active until " (host.iso_of (cooldown_until_ms binding)))
      else let_through "ready"

  unfoldable pub get_status :
      AccountReference → InMemoryVirtualWalletRepository → Result GatedBinding
  get_status input s = elim (get_virtual_wallet input s) [
    | err x ↦ err x
    | ok binding ↦ ok (record { binding = binding; gate = evaluate binding })
  ]

  unfoldable pub assert_withdrawal_allowed :
      AccountReference → InMemoryVirtualWalletRepository → Result (Option VirtualWalletBinding)
  assert_withdrawal_allowed input s = elim (get_virtual_wallet input s) [
    | err x ↦ err x
    | ok binding ↦
        if not (evaluate binding).withdraw_allowed
        then err (domain_error 409 "WITHDRAWAL_NOT_READY" (evaluate binding).reason)
        else ok binding
  ]

  unfoldable pub can_credit_deposit :
      AccountReference → InMemoryVirtualWalletRepository → Result GatedBinding
  can_credit_deposit input s = elim (get_virtual_wallet input s) [
    | err x ↦ err x
    | ok binding ↦ ok (record { binding = binding; gate = evaluate binding })
  ]

  -- A wallet is ready once it is active, its activation has been paid back, and the time since its
  -- creation is up.
  abbrev pub is_ready : VirtualWalletBinding → Bool
  is_ready binding =
      is_active binding.status
      && same_activation binding.activation_status VirtualWalletActivationStatus.reclaimed
      && not (
          ltb_ℤ now_ms (host.time_ms binding.created_at +ℤ pos (signup_wallet_cooldown_sec * 1000)))

  abbrev pub is_free : Option VirtualWalletBinding → Bool
  is_free none = true
  is_free (some binding) = is_ready binding

  evaluate_lem :
      (binding : Option VirtualWalletBinding)
      → ((evaluate binding).withdraw_allowed ≡ is_free binding)
        × ((evaluate binding).deposit_allowed ≡ is_free binding)
  unfolding evaluate
  evaluate_lem none = (refl, refl)
  evaluate_lem (some binding) = ground arith

  -- The gate of the reference that a caller gives lets a withdrawal through, and a deposit, exactly
  -- where the repository answers with no wallet or with one that is active, whose activation is
  -- reclaimed and whose cooldown is over. A closed gate refuses the withdrawal with status 409 and
  -- the gate's reason.
  pub assert_withdrawal_allowed_lem :
      (input : AccountReference) (s : InMemoryVirtualWalletRepository)
      (binding : Option VirtualWalletBinding)
      → get_virtual_wallet input s ≡ ok binding
      → (assert_withdrawal_allowed input s ≡ (
          if is_free binding
          then ok binding
          else err (domain_error 409 "WITHDRAWAL_NOT_READY" (evaluate binding).reason)))
        × (can_credit_deposit input s ≡ ok (record { binding = binding; gate = evaluate binding }))
        × ((evaluate binding).deposit_allowed ≡ is_free binding)
  unfolding assert_withdrawal_allowed can_credit_deposit
  assert_withdrawal_allowed_lem input s binding e =
      (ground (arith, evaluate_lem binding), ground arith, (evaluate_lem binding).1)
