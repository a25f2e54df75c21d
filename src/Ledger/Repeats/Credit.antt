-- ===== src/Ledger/Repeats/Credit.antt =====
-- src/ledger/in-memory-ledger.ts: an external credit that is applied again.
use coin_manage.Base.{String, true, false, some, ◌≡◌, arith, joined, Option-cases, inl, inr}
use coin_manage.Base.Int.{pos, leb_ℤ}
use coin_manage.Base.Map.{lookup, lookup-insert_self}
use coin_manage.Base.Action.{ok}
use coin_manage.Contracts.{Host}
use coin_manage.Ledger.Types.Funds.{ExternalCreditApplyResult}
use coin_manage.Ledger.State.{InMemoryLedger}
use coin_manage.Ledger.Deposits.{ExternalCreditInput, new_credit, apply_external_credit}
use coin_manage.Ledger.Frames.{credit_account-frame}

-- The key of a reference.
abbrev reference_of : ExternalCreditInput → String
reference_of input = joined input.reference_type input.reference_id

module _ (host : Host) (input : ExternalCreditInput) (now : String) (s : InMemoryLedger)
    (r : ExternalCreditApplyResult) where
  credit-known :
      (apply_external_credit host input now s).0 ≡ ok r
      → (c : ExternalCreditApplyResult) × (lookup
            (reference_of input)
            (apply_external_credit host input now s).1.external_credits_by_reference
          ≡ some c)
        × (record c { duplicated = true } ≡ record r { duplicated = true })
  unfolding apply_external_credit
  credit-known e =
      elim (Option-cases (lookup (reference_of input) s.external_credits_by_reference)) [
        | inr (c, k) ↦ (c, ground arith, ground arith)
        | inl k ↦ (
          new_credit host input now,
          ground (
            arith,
            credit_account-frame input.user_id input.amount now s,
            lookup-insert_self (reference_of input) (new_credit host input now)
                s.external_credits_by_reference,
          ),
          ground (arith, credit_account-frame input.user_id input.amount now s),
        )
      ]

  -- After `applyExternalCredit` returned, a call with the same reference and a positive amount
  -- changes nothing, and answers with the same credit as a duplicate.
  pub apply_external_credit-repeat :
      (retry : ExternalCreditInput) (later : String)
      → (apply_external_credit host input now s).0 ≡ ok r
      → reference_of retry ≡ reference_of input
      → leb_ℤ retry.amount (pos 0) ≡ false
      → apply_external_credit host retry later (apply_external_credit host input now s).1
        ≡ (ok (record r { duplicated = true }), (apply_external_credit host input now s).1)
  apply_external_credit-repeat retry later e same positive =
      let (c, k, q) = credit-known e in again (apply_external_credit host input now s).1 c k q
    where
      again :
          (t : InMemoryLedger) (c : ExternalCreditApplyResult)
          → lookup (reference_of input) t.external_credits_by_reference ≡ some c
          → record c { duplicated = true } ≡ record r { duplicated = true }
          → apply_external_credit host retry later t ≡ (ok (record r { duplicated = true }), t)
      again t c k q =
          let known : lookup (reference_of retry) t.external_credits_by_reference ≡ some c =
            rw same k in
          unfold apply_external_credit in ground arith
