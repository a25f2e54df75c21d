-- ===== src/Ledger/Conservation/Accounts.antt =====
-- The sum of all balances under the helpers of src/ledger/in-memory-ledger.ts that move money.
use coin_manage.Base.{
  String, false, none, some, ◌≡◌, refl, arith, eq_iff, Bool-cases, inl, inr, Option-cases, ◌==◌,
}
use coin_manage.Base.Int.{ℤ, pos, ◌+ℤ◌, ◌-ℤ◌, int_laws, ltb_ℤ}
use coin_manage.Base.Action.{ok}
use coin_manage.Base.Map.{
  Map, lookup, insert, sum_of, sum_of-insert, sum_of-insert_new, lookup-insert, lookup-insert_self,
}
use coin_manage.Ledger.Types.Funds.{Account}
use coin_manage.Ledger.State.{InMemoryLedger, get_mutable_account, create_empty_account}
use coin_manage.Ledger.Deposits.{credit_account, credited}
use coin_manage.Ledger.Transfers.{TransferInput, move_funds, debited}
use coin_manage.Ledger.Requests.{reserve_funds, reserved}
use coin_manage.Ledger.Withdrawals.{settle_account}
use coin_manage.Ledger.Conservation.{held, held_of}

pub held-insert :
    (u : String) (x : Account) (m : Map Account)
    → sum_of held (insert u x m) +ℤ held_of u m ≡ sum_of held m +ℤ held x
held-insert u x m = elim (Option-cases (lookup u m)) [
  | inl e ↦ rw (e, held_of) (grind (int_laws, sum_of-insert_new held u x m e))
  | inr (old, e) ↦ rw (e, held_of) (sum_of-insert held u x old m e)
]

abbrev pub held_after : String → Account → Map Account → ℤ
held_after u x m = sum_of held (insert u x m)

held_of-insert : (u : String) (x : Account) (m : Map Account) → held_of u (insert u x m) ≡ held x
held_of-insert u x m = rw (lookup-insert_self u x m, held_of) refl

shift_total :
    (new old before after a : ℤ)
    → new +ℤ before ≡ old +ℤ after
    → after ≡ before +ℤ a
    → new ≡ old +ℤ a
shift_total new old before after a sums more = grind int_laws

pub zero_total : (new old before : ℤ) → new +ℤ before ≡ old +ℤ before → new ≡ old
zero_total new old before sums = grind int_laws

back_and_forth :
    (last paid both one start a : ℤ)
    → last ≡ paid +ℤ a
    → paid ≡ both +ℤ (pos 0 -ℤ a)
    → both ≡ one
    → one ≡ start
    → last ≡ start
back_and_forth last paid both one start a p q r e =
    let z : both +ℤ (pos 0 -ℤ a) +ℤ a ≡ both = omega int_laws in rw (p, q, z, r) e

-- The account of a user is changed by `a`.
pub held-change :
    (u : String) (x y : Account) (a : ℤ) (m : Map Account)
    → lookup u m ≡ some x
    → held y ≡ held x +ℤ a
    → sum_of held (insert u y m) ≡ sum_of held m +ℤ a
held-change u x y a m e more = shift_total _ _ _ _ a (sum_of-insert held u y x m e) more

-- An account is created, and holds nothing.
pub held-create :
    (u : String) (x : Account) (m : Map Account)
    → lookup u m ≡ none
    → held x ≡ pos 0
    → sum_of held (insert u x m) ≡ sum_of held m
held-create u x m e empty =
    let q : sum_of held (insert u x m) ≡ sum_of held m +ℤ held x = sum_of-insert_new held u x m e in
    let z : sum_of held m +ℤ pos 0 ≡ sum_of held m = omega int_laws in rw (q, empty) z

module _ (user_id : String) (amount : ℤ) (now : String) (s : InMemoryLedger) where
  abbrev created_account : Account
  created_account = create_empty_account user_id now s

  pub created-held : held created_account ≡ pos 0
  unfolding create_empty_account ◌+ℤ◌
  created-held = refl

  -- The account that a helper works on, and the accounts with it.
  pub mutable-held :
      (a : Account) × ((get_mutable_account user_id now s).0 ≡ ok a)
      × ((get_mutable_account user_id now s).1
          ≡ record s { accounts = (get_mutable_account user_id now s).1.accounts })
      × (lookup user_id (get_mutable_account user_id now s).1.accounts ≡ some a)
      × (sum_of held (get_mutable_account user_id now s).1.accounts ≡ sum_of held s.accounts)
  unfolding get_mutable_account
  mutable-held = elim (Option-cases (lookup user_id s.accounts)) [
    | inr (a, e) ↦ (a, ground arith, ground arith, ground arith, ground arith)
    | inl e ↦ (
      created_account,
      ground arith,
      ground arith,
      ground (arith, lookup-insert_self user_id created_account s.accounts),
      ground (arith, held-create user_id created_account s.accounts e created-held),
    )
  ]

  pub credit_account-held :
      sum_of held (credit_account user_id amount now s).1.accounts
      ≡ sum_of held s.accounts +ℤ amount
  credit_account-held =
      let (a, got, frame, found, same) = mutable-held in
      let t = (get_mutable_account user_id now s).1 in
      let q : (credit_account user_id amount now s).1.accounts
          ≡ insert user_id (credited amount now a) t.accounts =
        unfold credit_account in ground arith in
      let more : held (credited amount now a) ≡ held a +ℤ amount = omega int_laws in
      rw (q, ← same) (held-change user_id a (credited amount now a) amount t.accounts found more)

  pub reserve_funds-held :
      sum_of held (reserve_funds user_id amount now s).1.accounts ≡ sum_of held s.accounts
  reserve_funds-held =
      let (a, got, frame, found, same) = mutable-held in
      let t = (get_mutable_account user_id now s).1 in
      elim (Bool-cases (ltb_ℤ a.balance amount)) [
        | inl short ↦
            let q : (reserve_funds user_id amount now s).1.accounts ≡ t.accounts =
              unfold reserve_funds in ground arith in
            rw q same
        | inr enough ↦
            let q : (reserve_funds user_id amount now s).1.accounts
                ≡ insert user_id (reserved amount now a) t.accounts =
              unfold reserve_funds in ground arith in
            let more : held (reserved amount now a) ≡ held a +ℤ pos 0 = omega int_laws in
            let z : sum_of held t.accounts +ℤ pos 0 ≡ sum_of held t.accounts = omega int_laws in
            rw (q, held-change user_id a (reserved amount now a) (pos 0) t.accounts found more, z)
              same
      ]

  pub settle_account-held :
      (change : Account → Account) (d : ℤ)
      → ((a : Account) → held (change a) ≡ held a +ℤ d)
      → (settle_account user_id amount now change s).0 ≡ ok tt
      → sum_of held (settle_account user_id amount now change s).1.accounts
        ≡ sum_of held s.accounts +ℤ d
  settle_account-held change d more done =
      let (a, got, frame, found, same) = mutable-held in
      let t = (get_mutable_account user_id now s).1 in
      let q : (settle_account user_id amount now change s).1.accounts
          ≡ insert user_id (change a) t.accounts =
        unfold settle_account in ground arith in
      rw (q, ← same) (held-change user_id a (change a) d t.accounts found (more a))

module _ (input : TransferInput) (now : String) (s : InMemoryLedger)
    (apart : (input.from_user_id == input.to_user_id) ≡ false) where
  abbrev with_from : InMemoryLedger
  with_from = (get_mutable_account input.from_user_id now s).1

  abbrev with_both : InMemoryLedger
  with_both = (get_mutable_account input.to_user_id now with_from).1

  -- The creation of the second account leaves the first.
  from_kept :
      (a : Account)
      → lookup input.from_user_id with_from.accounts ≡ some a
      → lookup input.from_user_id with_both.accounts ≡ some a
  from_kept a e = elim (Option-cases (lookup input.to_user_id with_from.accounts)) [
    | inr (b, k) ↦ unfold get_mutable_account in ground arith
    | inl k ↦
        unfold get_mutable_account in
        ground (
          arith,
          lookup-insert input.to_user_id input.from_user_id
              (create_empty_account input.to_user_id now with_from) with_from.accounts,
          eq_iff input.from_user_id input.to_user_id,
          eq_iff input.to_user_id input.from_user_id,
        )
  ]

  pub move_funds-held : sum_of held (move_funds input now s).1.accounts ≡ sum_of held s.accounts
  move_funds-held =
      let (a, got_a, frame_a, found_a, same_a) =
        mutable-held input.from_user_id input.amount now s in
      let (b, got_b, frame_b, found_b, same_b) =
        mutable-held input.to_user_id input.amount now with_from in
      let kept : lookup input.from_user_id with_both.accounts ≡ some a = from_kept a found_a in
      let a' = debited input.amount now a in
      let b' = credited input.amount now b in
      let less : held a' ≡ held a +ℤ (pos 0 -ℤ input.amount) = omega int_laws in
      let more : held b' ≡ held b +ℤ input.amount = omega int_laws in
      let paid = insert input.from_user_id a' with_both.accounts in
      let found : lookup input.to_user_id paid ≡ some b = ground (
        arith,
        lookup-insert input.from_user_id input.to_user_id a' with_both.accounts,
        eq_iff input.from_user_id input.to_user_id,
      ) in
      elim (Bool-cases (ltb_ℤ a.balance input.amount)) [
        | inl short ↦
            let q : (move_funds input now s).1.accounts ≡ with_both.accounts =
              unfold move_funds in ground arith in
            rw (q, same_b) same_a
        | inr enough ↦
            let q : (move_funds input now s).1.accounts ≡ insert input.to_user_id b' paid =
              unfold move_funds in ground arith in
            let first : sum_of held paid
                ≡ sum_of held with_both.accounts +ℤ (pos 0 -ℤ input.amount) =
              held-change input.from_user_id a a' (pos 0 -ℤ input.amount) with_both.accounts kept
                less in
            let second : sum_of held (insert input.to_user_id b' paid)
                ≡ sum_of held paid +ℤ input.amount =
              held-change input.to_user_id b b' input.amount paid found more in
            rw q (back_and_forth _ _ _ _ _ input.amount second first same_b same_a)
      ]
