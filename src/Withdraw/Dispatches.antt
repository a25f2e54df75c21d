-- ===== src/Withdraw/Dispatches.antt =====
-- What the jobs of src/application/services/withdraw-dispatch-worker.ts send.
use coin_manage.Base.{
  ℕ, String, true, truthy, none, some, [], ◌∷◌, ◌++◌, ◌≡◌, refl, arith, inl, inr, ◌⊎◌, Bool-cases,
  Option-cases,
}
use coin_manage.Base.Map.{lookup, lookup-insert_self}
use coin_manage.Base.Action.{ok, Result-cases}
use coin_manage.Ledger.Audit.{append_audit_log}
use coin_manage.Ledger.Types.Funds.{Withdrawal}
use coin_manage.Ledger.Withdrawals.{is_approved}
use coin_manage.Withdraw.Sync.{Ports, audit, WithdrawState}
use coin_manage.Withdraw.Service.{send, broadcast, broadcast_current, transfer_request}
use coin_manage.Withdraw.SyncFrames.{publish-frame, audit-frame}
use coin_manage.Withdraw.Broadcasts.{broadcast-answer}
use coin_manage.Withdraw.Dispatch.{
  Outcome, DispatchAlerts, is_dispatched, ensure_hot_wallet_resources, dispatch_approved,
  dispatch_found, process_dispatch,
}

-- A broadcast sends nothing, or one transfer, whether it returns or throws.
broadcast_current-sent :
    (ports : Ports) (now id : String) (w : Withdrawal) (s : WithdrawState)
    → let t = (broadcast_current ports now id w s).1 in
      (t.sent ≡ s.sent) ⊎ (t.sent ≡ s.sent ++ transfer_request ports now id w ∷ [])
unfolding broadcast_current send
broadcast_current-sent ports now id w s =
    ground (arith, publish-frame ports now, audit-frame ports now)

-- A broadcast of a withdrawal that is there returns it, or throws.
broadcast_current-some :
    (ports : Ports) (now id : String) (w : Withdrawal) (s : WithdrawState)
    → ¬ ((broadcast_current ports now id w s).0 ≡ ok none)
unfolding broadcast_current send audit append_audit_log
broadcast_current-some ports now id w s = λ h. ground (arith, h)

broadcast-some :
    (ports : Ports) (now id : String) (w : Withdrawal) (s : WithdrawState)
    → lookup id s.ledger.withdrawals ≡ some w
    → ¬ ((broadcast ports now id s).0 ≡ ok none)
unfolding broadcast
broadcast-some ports now id w s found =
    λ h. broadcast_current-some ports now id w s (ground (arith, found, h))

module _ (ports : Ports) (alerts : DispatchAlerts) (now : String) (id : String) where
  -- A dispatch of a withdrawal that is broadcast, completed or failed returns at once.
  process_dispatch-done :
      (attempt : ℕ) (later : String) (w : Withdrawal) (s : WithdrawState)
      → truthy id ≡ true
      → lookup id s.ledger.withdrawals ≡ some w
      → is_dispatched w.status ≡ true
      → process_dispatch ports alerts later id attempt s ≡ (Outcome.returned, s)
  unfolding process_dispatch dispatch_found
  process_dispatch-done attempt later w s named found done = ground (arith, named, found, done)

  -- The withdrawal is one that needs no dispatch.
  abbrev pub IsSettled : WithdrawState → Type 0
  IsSettled t =
      (w : Withdrawal) × (lookup id t.ledger.withdrawals ≡ some w) × (is_dispatched w.status ≡ true)

  dispatch_approved-IsSettled :
      (attempt : ℕ) (w : Withdrawal) (s : WithdrawState)
      → lookup id s.ledger.withdrawals ≡ some w
      → (dispatch_approved ports alerts now id attempt s).0 ≡ Outcome.returned
      → IsSettled (dispatch_approved ports alerts now id attempt s).1
  dispatch_approved-IsSettled attempt w s found h =
      elim (Option-cases (ensure_hot_wallet_resources ports alerts now id)) [
        | inr (x, e) ↦ absurd (unfold dispatch_approved in ground (arith, e, h))
        | inl ready ↦ elim (Result-cases (broadcast ports now id s).0) [
          | inr (x, e) ↦ absurd (unfold dispatch_approved in ground (arith, ready, e, h))
          | inl (none, e) ↦ absurd (broadcast-some ports now id w s found e)
          | inl (some u, e) ↦
              let (v, tx_hash, _, b) = broadcast-answer ports now id s u e in
              let q : (dispatch_approved ports alerts now id attempt s).1
                  ≡ (broadcast ports now id s).1 =
                unfold dispatch_approved in ground (arith, ready, e) in
              (
                u,
                rw q (rw b.written (lookup-insert_self id u s.ledger.withdrawals)),
                rw b.updated refl,
              )
        ]
      ]

  dispatch_found-IsSettled :
      (attempt : ℕ) (w : Withdrawal) (s : WithdrawState)
      → lookup id s.ledger.withdrawals ≡ some w
      → (dispatch_found ports alerts now id attempt w s).0 ≡ Outcome.returned
      → IsSettled (dispatch_found ports alerts now id attempt w s).1
  dispatch_found-IsSettled attempt w s found h = elim (Bool-cases (is_dispatched w.status)) [
    | inl e ↦
        let q : dispatch_found ports alerts now id attempt w s ≡ (Outcome.returned, s) =
          unfold dispatch_found in ground (arith, e) in
        rw q (w, found, e)
    | inr e ↦ elim (Bool-cases (is_approved w.status)) [
      | inr e' ↦ absurd (unfold dispatch_found in ground (arith, e, e', h))
      | inl e' ↦
          let q : dispatch_found ports alerts now id attempt w s
              ≡ dispatch_approved ports alerts now id attempt s =
            unfold dispatch_found in ground (arith, e, e') in
          rw q (dispatch_approved-IsSettled attempt w s found (rw q at h))
    ]
  ]

  -- A dispatch that returned has left its withdrawal as one that needs no dispatch.
  process_dispatch-IsSettled :
      (attempt : ℕ) (s : WithdrawState)
      → (process_dispatch ports alerts now id attempt s).0 ≡ Outcome.returned
      → IsSettled (process_dispatch ports alerts now id attempt s).1
  process_dispatch-IsSettled attempt s h = elim (Bool-cases (truthy id)) [
    | inr e ↦ absurd (unfold process_dispatch in ground (arith, e, h))
    | inl named ↦ elim (Option-cases (lookup id s.ledger.withdrawals)) [
      | inl e ↦ absurd (unfold process_dispatch in ground (arith, named, e, h))
      | inr (w, found) ↦
          let q : process_dispatch ports alerts now id attempt s
              ≡ dispatch_found ports alerts now id attempt w s =
            unfold process_dispatch in ground (arith, named, found) in
          rw q (dispatch_found-IsSettled attempt w s found (rw q at h))
    ]
  ]

  -- After a dispatch that returned, another dispatch of the same withdrawal, at any time, returns
  -- and changes nothing: it sends no second transfer.
  pub process_dispatch-again :
      (attempt next : ℕ) (later : String) (s : WithdrawState)
      → (process_dispatch ports alerts now id attempt s).0 ≡ Outcome.returned
      → let t = (process_dispatch ports alerts now id attempt s).1 in
        process_dispatch ports alerts later id next t ≡ (Outcome.returned, t)
  process_dispatch-again attempt next later s h = elim (Bool-cases (truthy id)) [
    | inr e ↦ absurd (unfold process_dispatch in ground (arith, e, h))
    | inl named ↦
        let t = (process_dispatch ports alerts now id attempt s).1 in
        let (w, found, done) = process_dispatch-IsSettled attempt s h in
        process_dispatch-done next later w t named found done
  ]

  -- What a job may send: nothing, or the transfer of its withdrawal, which is approved.
  unfoldable pub SendsApproved : WithdrawState → WithdrawState → Type 0
  SendsApproved s t =
      (t.sent ≡ s.sent)
      ⊎ ((w : Withdrawal) × (lookup id s.ledger.withdrawals ≡ some w)
          × (is_approved w.status ≡ true)
          × (t.sent ≡ s.sent ++ transfer_request ports now id w ∷ []))

  dispatch_approved-sent :
      (attempt : ℕ) (w : Withdrawal) (s : WithdrawState)
      → lookup id s.ledger.withdrawals ≡ some w
      → let t = (dispatch_approved ports alerts now id attempt s).1 in
        (t.sent ≡ s.sent) ⊎ (t.sent ≡ s.sent ++ transfer_request ports now id w ∷ [])
  unfolding dispatch_approved broadcast
  dispatch_approved-sent attempt w s found =
      ground (arith, found, broadcast_current-sent ports now id w s)

  dispatch_found-sends :
      (attempt : ℕ) (w : Withdrawal) (s : WithdrawState)
      → lookup id s.ledger.withdrawals ≡ some w
      → SendsApproved s (dispatch_found ports alerts now id attempt w s).1
  unfolding SendsApproved dispatch_found
  dispatch_found-sends attempt w s found = elim (Bool-cases (is_dispatched w.status)) [
    | inl e ↦ inl (ground (arith, e))
    | inr e ↦ elim (Bool-cases (is_approved w.status)) [
      | inr e' ↦ inl (ground (arith, e, e'))
      | inl e' ↦ elim (dispatch_approved-sent attempt w s found) [
        | inl same ↦ inl (ground (arith, e, e', same))
        | inr one ↦ inr (w, found, e', ground (arith, e, e', one))
      ]
    ]
  ]

  -- A dispatch, whether it returns or throws, sends nothing or exactly one transfer, that of its
  -- withdrawal, and then the withdrawal was approved before.
  pub process_dispatch-sends :
      (attempt : ℕ) (s : WithdrawState)
      → SendsApproved s (process_dispatch ports alerts now id attempt s).1
  process_dispatch-sends attempt s = elim (Bool-cases (truthy id)) [
    | inr e ↦ unfold SendsApproved process_dispatch in inl (ground (arith, e))
    | inl named ↦ elim (Option-cases (lookup id s.ledger.withdrawals)) [
      | inl e ↦ unfold SendsApproved process_dispatch in inl (ground (arith, named, e))
      | inr (w, found) ↦
          let q : process_dispatch ports alerts now id attempt s
              ≡ dispatch_found ports alerts now id attempt w s =
            unfold process_dispatch in ground (arith, named, found) in
          rw q (dispatch_found-sends attempt w s found)
    ]
  ]
