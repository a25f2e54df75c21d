-- ===== src/Ledger/Conservation/Methods.antt =====
-- The methods of src/ledger/in-memory-ledger.ts that move money keep the books.
use coin_manage.Base.{
  ◌+◌, String, false, none, some, ◌≡◌, refl, arith, eq_iff, inl, inr, Option-cases, Bool-cases,
  ◌==◌, [], ◌∷◌, joined,
}
use mathlib.Core.Path.{subst}
use coin_manage.Base.Int.{ℤ, pos, ◌+ℤ◌, int_laws, leb_ℤ}
use coin_manage.Base.Keys.{HasDistinctKeys, HasDistinctKeys-insert}
use coin_manage.Base.Map.{Map, lookup, insert, sum_of, sum_of-insert, sum_of-insert_new}
use coin_manage.Contracts.{Host}
use coin_manage.Ledger.Types.Funds.{Account, Deposit, DepositStatus, ExternalCreditApplyResult}
use coin_manage.Ledger.State.{InMemoryLedger, create_empty_account}
use coin_manage.Ledger.Accounts.{get_account, set_account_address, bind_wallet_address}
use coin_manage.Ledger.Deposits.{
  DepositInput, apply_deposit, apply_new_deposit, new_deposit, credit_account, find_deposit,
  complete_deposit, is_completed, ExternalCreditInput, new_credit, apply_external_credit,
}
use coin_manage.Ledger.Frames.{credit_account-frame}
use coin_manage.Ledger.Conservation.{
  outflow, held, IsBalanced, Moves, Moves-IsBalanced, MovesWithin-IsBalanced,
}
use coin_manage.Ledger.Conservation.Accounts.{
  credit_account-held, held-create, created-held, zero_total,
}

add_zero : (a : ℤ) → a ≡ a +ℤ pos 0
add_zero a = omega int_laws

find_deposit-lookup :
    (id key : String) (d : Deposit) (m : Map Deposit)
    → HasDistinctKeys m
    → find_deposit id m ≡ some (key, d)
    → lookup key m ≡ some d
unfolding find_deposit HasDistinctKeys lookup
find_deposit-lookup id key d [] h e = ground arith
find_deposit-lookup id key d ((j, x) ∷ m) h e = elim (Bool-cases (x.deposit_id == id)) [
  | inl here ↦ ground (arith, eq_iff j key)
  | inr later ↦
      let found : find_deposit id m ≡ some (key, d) = ground arith in
      let behind : lookup key m ≡ some d = find_deposit-lookup id key d m h.1 found in
      elim (Bool-cases (j == key)) [
        | inr other ↦ ground arith
        | inl same ↦
            let q : j ≡ key = ground (arith, eq_iff j key) in
            let free : lookup key m ≡ none = subst (λ k. lookup k m ≡ none) q h.0 in ground arith
      ]
]

module _ (host : Host) (now : String) (s : InMemoryLedger) where
  apply_new_deposit-Moves :
      (input : DepositInput)
      → lookup input.tx_hash s.deposits_by_tx_hash ≡ none
      → Moves s (apply_new_deposit host input now s).1 input.amount (pos 0) input.amount
  apply_new_deposit-Moves input new =
      let t = (apply_new_deposit host input now s).1 in
      let d = new_deposit input (host.random_uuid (s.issued + 1)) now in
      let frame = credit_account-frame input.user_id input.amount now s in
      let accounts : t.accounts ≡ (credit_account input.user_id input.amount now s).1.accounts =
        unfold apply_new_deposit in ground (arith, frame) in
      let withdrawals : t.withdrawals ≡ s.withdrawals =
        unfold apply_new_deposit in ground (arith, frame) in
      let deposits : t.deposits_by_tx_hash ≡ insert input.tx_hash d s.deposits_by_tx_hash =
        unfold apply_new_deposit in ground (arith, frame) in
      let credits : t.external_credits_by_reference ≡ s.external_credits_by_reference =
        unfold apply_new_deposit in ground (arith, frame) in
      let total =
        sum_of-insert_new (λ (d : Deposit). d.amount) input.tx_hash d s.deposits_by_tx_hash new in
      record {
        liability_moved = rw accounts (credit_account-held input.user_id input.amount now s);
        outflow_moved = rw withdrawals (add_zero (outflow s));
        inflow_moved = rw (deposits, credits, total) (omega int_laws);
        keys_kept =
            λ h. rw deposits (HasDistinctKeys-insert input.tx_hash d s.deposits_by_tx_hash h);
      }

  pub apply_deposit-IsBalanced :
      (input : DepositInput) → IsBalanced s → IsBalanced (apply_deposit host input now s).1
  apply_deposit-IsBalanced input h =
      elim (Option-cases (lookup input.tx_hash s.deposits_by_tx_hash)) [
        | inr (d, e) ↦ unfold apply_deposit in rw (e, apply_deposit) h
        | inl e ↦
            unfold apply_deposit in
            rw (e, apply_deposit)
              (Moves-IsBalanced (apply_new_deposit-Moves input e) (omega int_laws) h)
      ]

  pub complete_deposit-IsBalanced :
      (id : String) → IsBalanced s → IsBalanced (complete_deposit id s).1
  complete_deposit-IsBalanced id h = elim (Option-cases (find_deposit id s.deposits_by_tx_hash)) [
    | inl e ↦
        let q : (complete_deposit id s).1 ≡ s = unfold complete_deposit in ground arith in rw q h
    | inr ((key, d), e) ↦ elim (Bool-cases (is_completed d.status)) [
      | inl done ↦
          let q : (complete_deposit id s).1 ≡ s = unfold complete_deposit in ground arith in rw q h
      | inr open_yet ↦
          let d' = record d { status = DepositStatus.completed } in
          let m = s.deposits_by_tx_hash in
          let q : (complete_deposit id s).1 ≡ record s { deposits_by_tx_hash = insert key d' m } =
            unfold complete_deposit in ground arith in
          let found = find_deposit-lookup id key d m h.keys e in
          let sums = sum_of-insert (λ (d : Deposit). d.amount) key d' d m found in
          let same = zero_total _ _ d.amount sums in
          rw q (record { books = rw same h.books; keys = HasDistinctKeys-insert key d' m h.keys })
    ]
  ]

  apply_external_credit-new :
      (input : ExternalCreditInput)
      → leb_ℤ input.amount (pos 0) ≡ false
      → lookup (joined input.reference_type input.reference_id) s.external_credits_by_reference
        ≡ none
      → Moves s (apply_external_credit host input now s).1 input.amount (pos 0) input.amount
  apply_external_credit-new input positive new =
      let t = (apply_external_credit host input now s).1 in
      let c = new_credit host input now in
      let key = joined input.reference_type input.reference_id in
      let frame = credit_account-frame input.user_id input.amount now s in
      let accounts : t.accounts ≡ (credit_account input.user_id input.amount now s).1.accounts =
        unfold apply_external_credit in ground (arith, frame) in
      let withdrawals : t.withdrawals ≡ s.withdrawals =
        unfold apply_external_credit in ground (arith, frame) in
      let deposits : t.deposits_by_tx_hash ≡ s.deposits_by_tx_hash =
        unfold apply_external_credit in ground (arith, frame) in
      let credits : t.external_credits_by_reference ≡ insert key c s.external_credits_by_reference =
        unfold apply_external_credit in ground (arith, frame) in
      let total =
        sum_of-insert_new (λ (c : ExternalCreditApplyResult). c.amount) key c
          s.external_credits_by_reference new in
      record {
        liability_moved = rw accounts (credit_account-held input.user_id input.amount now s);
        outflow_moved = rw withdrawals (add_zero (outflow s));
        inflow_moved = rw (deposits, credits, total) (omega int_laws);
        keys_kept = λ h. rw deposits h;
      }

  pub apply_external_credit-IsBalanced :
      (input : ExternalCreditInput)
      → IsBalanced s
      → IsBalanced (apply_external_credit host input now s).1
  apply_external_credit-IsBalanced input h = elim (Bool-cases (leb_ℤ input.amount (pos 0))) [
    | inl bad ↦
        let q : (apply_external_credit host input now s).1 ≡ s =
          unfold apply_external_credit in ground arith in
        rw q h
    | inr positive ↦
        elim (Option-cases (
          lookup (joined input.reference_type input.reference_id)
            s.external_credits_by_reference)) [
              | inr (c, e) ↦
                  let q : (apply_external_credit host input now s).1 ≡ s =
                    unfold apply_external_credit in ground arith in
                  rw q h
              | inl e ↦
                  Moves-IsBalanced (apply_external_credit-new input positive e) (omega int_laws) h
            ]
  ]

  pub get_account-IsBalanced :
      (user_id : String) → IsBalanced s → IsBalanced (get_account user_id now s).1
  get_account-IsBalanced user_id h =
      MovesWithin-IsBalanced {s = s} {t = (get_account user_id now s).1}
        (record {
          liability_same = elim (Option-cases (lookup user_id s.accounts)) [
            | inr (a, e) ↦
                let q : (get_account user_id now s).1.accounts ≡ insert user_id a s.accounts =
                  unfold get_account in ground arith in
                rw q (zero_total _ _ (held a) (sum_of-insert held user_id a a s.accounts e))
            | inl e ↦
                let a = create_empty_account user_id now s in
                let q : (get_account user_id now s).1.accounts ≡ insert user_id a s.accounts =
                  unfold get_account in ground arith in
                rw q (held-create user_id a s.accounts e (created-held user_id (pos 0) now s))
          ];
          outflow_same = unfold get_account in refl;
          deposits_same = unfold get_account in refl;
          credits_same = unfold get_account in refl;
        })
        h

  set_account_address-held :
      (u a : String) (m : Map Account) → sum_of held (set_account_address u a m) ≡ sum_of held m
  set_account_address-held u a m = elim (Option-cases (lookup u m)) [
    | inl e ↦ rw (e, set_account_address) refl
    | inr (x, e) ↦
        rw (e, set_account_address)
          (zero_total _ _ (held x)
            (sum_of-insert held u (record x { wallet_address = some a }) x m e))
  ]

  pub bind_wallet_address-IsBalanced :
      (u a : String) → IsBalanced s → IsBalanced (bind_wallet_address u a now s).1
  bind_wallet_address-IsBalanced u a h =
      MovesWithin-IsBalanced {s = s} {t = (bind_wallet_address u a now s).1}
        (record {
          liability_same =
              unfold bind_wallet_address in ground (arith, set_account_address-held u a s.accounts);
          outflow_same = unfold bind_wallet_address in ground arith;
          deposits_same = unfold bind_wallet_address in ground arith;
          credits_same = unfold bind_wallet_address in ground arith;
        })
        h
