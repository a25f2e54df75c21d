-- ===== src/VirtualWallets/Issues.antt =====
-- What src/infrastructure/persistence/in-memory-virtual-wallet-repository.ts answers to an issue, and to
-- the same issue made again.
use coin_manage.Base.{
  ℕ, String, true, false, Option, none, some, ◌≡◌, arith, inl, inr, Option-cases,
}
use coin_manage.Base.Map.{lookup, lookup-insert_self}
use coin_manage.Base.Action.{domain_error, ok, err, Result-cases}
use coin_manage.Contracts.{Host}
use coin_manage.Ledger.State.{random_uuid}
use coin_manage.Ledger.Accounts.{bind_wallet_address, taken_by_other}
use coin_manage.VirtualWallets.Types.{
  IssueInput, VirtualWalletIssueResult, FoxyaWalletSigner, Network, is_active,
}
use coin_manage.VirtualWallets.Store.{
  StoredVirtualWalletBinding, InMemoryVirtualWalletRepository, write, get_active_wallet,
}
use coin_manage.VirtualWallets.Repository.{
  create_wallet, check_issue, issue_virtual_wallet, reissue_virtual_wallet, made_for, new_wallet,
  store_wallet, retire_replaced, repeated, get_wallet_signer_by_address, network_fits,
}
use coin_manage.VirtualWallets.Heaps.{IsWellFormed}

module _ (host : Host) (input : IssueInput) (now : String)
    (s : InMemoryVirtualWalletRepository) where
  -- The wallet that the next creation makes.
  abbrev pub next_wallet : StoredVirtualWalletBinding
  next_wallet = new_wallet input (host.random_uuid s.ledger.issued) now

  module _ (replaced : Option (ℕ × StoredVirtualWalletBinding)) where
    abbrev after : InMemoryVirtualWalletRepository
    after = (create_wallet host input replaced now s).1

    -- Whether the ledger binds the address or throws, the wallet stands under its idempotency key.
    create_wallet-made :
        made_for input.idempotency_key after
        ≡ some (
          (retire_replaced replaced (host.random_uuid s.ledger.issued) now s).allocated,
          next_wallet,
        )
    unfolding create_wallet store_wallet write random_uuid
    create_wallet-made =
        ground
          (arith, lookup-insert_self input.idempotency_key s.allocated s.wallet_by_idempotency_key)

    create_wallet-answer :
        (create_wallet host input replaced now s).0
        ≡ elim ((bind_wallet_address input.user_id input.wallet_address now s.ledger).0) [
          | ok binding ↦ ok (record { binding = next_wallet.shown; duplicated = false })
          | err x ↦ err x
        ]
    unfolding create_wallet store_wallet random_uuid bind_wallet_address
    create_wallet-answer = ground arith

  issue-repeats :
      (again : IssueInput) (later : String) (t : InMemoryVirtualWalletRepository) (ref : ℕ)
      (w : StoredVirtualWalletBinding)
      → made_for again.idempotency_key t ≡ some (ref, w)
      → issue_virtual_wallet host again later t ≡ (ok (repeated w), t)
  unfolding issue_virtual_wallet
  issue-repeats again later t ref w e = ground arith

  issue-created :
      (r : VirtualWalletIssueResult)
      → (issue_virtual_wallet host input now s).0 ≡ ok r
      → r.duplicated ≡ false
      → issue_virtual_wallet host input now s ≡ create_wallet host input none now s
  issue-created r e new = elim (Option-cases (made_for input.idempotency_key s)) [
    | inr (found, k) ↦ absurd (unfold issue_virtual_wallet in ground arith)
    | inl fresh ↦ elim (Option-cases (get_active_wallet input.user_id input.currency_id s)) [
      | inr (found, k) ↦ absurd (unfold issue_virtual_wallet in ground arith)
      | inl none_active ↦ elim (Result-cases (check_issue host input s).0) [
        | inr (x, k) ↦ absurd (unfold issue_virtual_wallet check_issue in ground arith)
        | inl (x, k) ↦ unfold issue_virtual_wallet check_issue in ground arith
      ]
    ]
  ]

  created-binding :
      (replaced : Option (ℕ × StoredVirtualWalletBinding)) (r : VirtualWalletIssueResult)
      → (create_wallet host input replaced now s).0 ≡ ok r
      → repeated next_wallet ≡ record r { duplicated = true }
  created-binding replaced r e = ground (arith, create_wallet-answer replaced)

  -- A new wallet that an issue has made is what a next issue or reissue with its idempotency key, in
  -- the state that the issue left, answers, whatever else it asks for and whenever: marked as
  -- duplicated, and the repository and the ledger stay as they are.
  pub issue_virtual_wallet-repeats :
      (again : IssueInput) (later : String) (r : VirtualWalletIssueResult)
      → again.idempotency_key ≡ input.idempotency_key
      → (issue_virtual_wallet host input now s).0 ≡ ok r
      → r.duplicated ≡ false
      → let t = (issue_virtual_wallet host input now s).1 in
        (issue_virtual_wallet host again later t ≡ (ok (record r { duplicated = true }), t))
        × (reissue_virtual_wallet host again later t ≡ (ok (record r { duplicated = true }), t))
  issue_virtual_wallet-repeats again later r key e new =
      let q = issue-created r e new in
      let made = create_wallet-made none in
      let shown = created-binding none r (ground (arith, q)) in
      let t = (create_wallet host input none now s).1 in
      let known : made_for again.idempotency_key t ≡ some (s.allocated, next_wallet) =
        rw key made in
      rw q (
        unfold issue_virtual_wallet in ground (arith, known, shown),
        unfold reissue_virtual_wallet in ground (arith, known, shown),
      )

  -- An issue that passes every test of the repository, for an address that the ledger has bound to
  -- another user, throws, and binds nothing. The wallet is kept all the same: the same issue made
  -- again answers with it, as though it had been issued.
  pub issue_virtual_wallet-unbound :
      (later : String)
      → made_for input.idempotency_key s ≡ none
      → get_active_wallet input.user_id input.currency_id s ≡ none
      → (check_issue host input s).0 ≡ ok tt
      → taken_by_other
          (lookup input.wallet_address s.ledger.user_id_by_wallet_address)
          input.user_id
        ≡ true
      → let (r, t) = issue_virtual_wallet host input now s in
        (r
          ≡ err (
              domain_error 409 "WALLET_ADDRESS_IN_USE"
                "wallet address is already bound to another user"))
        × (t.ledger.user_id_by_wallet_address ≡ s.ledger.user_id_by_wallet_address)
        × (t.ledger.wallet_bindings_by_user_id ≡ s.ledger.wallet_bindings_by_user_id)
        × (issue_virtual_wallet host input later t ≡ (ok (repeated next_wallet), t))
  issue_virtual_wallet-unbound later fresh none_active passed taken =
      let q : issue_virtual_wallet host input now s ≡ create_wallet host input none now s =
        unfold issue_virtual_wallet check_issue in ground arith in
      let t = (create_wallet host input none now s).1 in
      rw q (
        unfold bind_wallet_address in ground (arith, create_wallet-answer none),
        unfold create_wallet random_uuid store_wallet bind_wallet_address in ground arith,
        unfold create_wallet random_uuid store_wallet bind_wallet_address in ground arith,
        issue-repeats input later t s.allocated next_wallet (create_wallet-made none),
      )

-- In a well-formed repository, a signer is handed out only for an active wallet at the address and in
-- the currency asked for, on the network asked for, and it is that wallet's key.
pub get_wallet_signer_by_address-active :
    (address : String) (currency_id : ℕ) (network : Option Network)
    (s : InMemoryVirtualWalletRepository) (signer : FoxyaWalletSigner)
    → IsWellFormed s
    → get_wallet_signer_by_address address currency_id network s ≡ some signer
    → (ref : ℕ) × (w : StoredVirtualWalletBinding) × (s.heap ref ≡ some w)
      × (is_active w.shown.status ≡ true)
      × (w.shown.wallet_address ≡ address)
      × (w.shown.currency_id ≡ currency_id)
      × (network_fits network w.shown.network ≡ true)
      × (signer.address ≡ address)
      × (signer.user_id ≡ w.shown.user_id)
      × (signer.private_key ≡ w.private_key)
get_wallet_signer_by_address-active address currency_id network s signer h e =
    elim (Option-cases (lookup address s.wallet_by_address)) [
      | inl missing ↦ absurd (unfold get_wallet_signer_by_address in ground arith)
      | inr (ref, at) ↦
          let (w, there, named) = h.by_address address ref at in
          (
            ref,
            w,
            there,
            unfold get_wallet_signer_by_address in ground arith,
            named,
            unfold get_wallet_signer_by_address in ground arith,
            unfold get_wallet_signer_by_address in ground arith,
            unfold get_wallet_signer_by_address in ground (arith, named),
            unfold get_wallet_signer_by_address in ground arith,
            unfold get_wallet_signer_by_address in ground arith,
          )
    ]
