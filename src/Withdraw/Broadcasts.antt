-- ===== src/Withdraw/Broadcasts.antt =====
-- What a broadcast of src/application/services/withdraw-service.ts has sent, and what it has written.
use coin_manage.Base.{String, true, false, some, [], ◌∷◌, ◌++◌, ◌≡◌, arith, inl, inr, Option-cases}
use coin_manage.Base.Map.{lookup, insert}
use coin_manage.Base.Action.{Error, domain_error, Result, ok, err, Result-cases}
use coin_manage.Ledger.Types.Funds.{ActorType, Withdrawal}
use coin_manage.Ledger.State.{InMemoryLedger}
use coin_manage.Ledger.Audit.{append_audit_log}
use coin_manage.Ledger.Withdrawals.{broadcast_withdrawal, broadcasted, is_approved}
use coin_manage.Withdraw.Guard.{assert_broadcast_allowed}
use coin_manage.Withdraw.Sync.{Ports, WithdrawState, audit, publish_withdrawal_state_change}
use coin_manage.Withdraw.SyncFrames.{publish-frame, audit-frame}
use coin_manage.Withdraw.Service.{
  assert_network, send, transfer_request, broadcast_current, broadcast,
}

module _ (ports : Ports) (now : String) where
  -- A broadcast of a withdrawal that is not approved, or not any more, sends its amount on chain
  -- where the guard and the signer let it, and throws only then: the ledger, which refuses it, is
  -- unchanged, and the transfer is made.
  pub broadcast-unapproved :
      (id tx_hash : String) (w : Withdrawal) (s : WithdrawState)
      → lookup id s.ledger.withdrawals ≡ some w
      → is_approved w.status ≡ false
      → assert_network ports now w.user_id ≡ ok tt
      → assert_broadcast_allowed ports.chain ports.guard w.to_address (some w.amount) ≡ ok tt
      → ports.sign (transfer_request ports now id w) ≡ ok tx_hash
      → let (r, t) = broadcast ports now id s in
        (r ≡ err (domain_error 409 "INVALID_STATE" "withdrawal must be admin approved"))
        × (t.sent ≡ s.sent ++ transfer_request ports now id w ∷ [])
        × (t.ledger ≡ s.ledger)
  unfolding broadcast broadcast_current send broadcast_withdrawal
  broadcast-unapproved id tx_hash w s e open_yet network guard signed =
      (ground arith, ground arith, ground arith)

  unsigned_broadcast :
      (id : String) (w : Withdrawal) (s : WithdrawState) (x : Error) (u : Withdrawal)
      → ports.sign (transfer_request ports now id w) ≡ err x
      → (broadcast_current ports now id w s).0 ≡ ok (some u)
      → ⊥
  unfolding broadcast_current send
  unsigned_broadcast id w s x u unsigned h = ground (arith, unsigned, h)

  -- What a broadcast that returns a withdrawal has done.
  pub record IsBroadcast (id : String) (s t : WithdrawState) (w u : Withdrawal) (tx_hash : String)
      : Type 0 where
    pub approved : is_approved w.status ≡ true
    pub allowed :
        assert_broadcast_allowed ports.chain ports.guard w.to_address (some w.amount) ≡ ok tt
    pub signed : ports.sign (transfer_request ports now id w) ≡ ok tx_hash
    pub sent_once : t.sent ≡ s.sent ++ transfer_request ports now id w ∷ []
    pub updated : u ≡ broadcasted tx_hash now w
    pub written : t.ledger.withdrawals ≡ insert id u s.ledger.withdrawals

  module _ (id tx_hash : String) (w : Withdrawal) (s : WithdrawState) where
    abbrev signed_state : WithdrawState
    signed_state = record s { sent = s.sent ++ transfer_request ports now id w ∷ [] }

    abbrev ledger_step : Result Withdrawal × InMemoryLedger
    ledger_step = broadcast_withdrawal ports.host id tx_hash now s.ledger

    ledger_step-approved :
        (u : Withdrawal)
        → lookup id s.ledger.withdrawals ≡ some w
        → ledger_step.0 ≡ ok u
        → (is_approved w.status ≡ true)
          × (u ≡ broadcasted tx_hash now w)
          × (ledger_step.1.withdrawals ≡ insert id u s.ledger.withdrawals)
    unfolding broadcast_withdrawal
    ledger_step-approved u found h = ground (arith, found, h)

    abbrev written_state : WithdrawState
    written_state = record signed_state { ledger = ledger_step.1 }

    -- The end of a broadcast, once the ledger has taken it.
    broadcast-ended :
        (u v : Withdrawal)
        → assert_network ports now w.user_id ≡ ok tt
        → assert_broadcast_allowed ports.chain ports.guard w.to_address (some w.amount) ≡ ok tt
        → ports.sign (transfer_request ports now id w) ≡ ok tx_hash
        → ledger_step.0 ≡ ok v
        → (broadcast_current ports now id w s).0 ≡ ok (some u)
        → let t = (broadcast_current ports now id w s).1 in
          (u ≡ v)
          × (t.sent ≡ signed_state.sent)
          × (t.ledger.withdrawals ≡ ledger_step.1.withdrawals)
    broadcast-ended u v net guard signed step h =
        let frame = publish-frame ports now v written_state in
        let after = (publish_withdrawal_state_change ports now v written_state).1 in
        let noted =
          audit-frame ports now id "withdraw.broadcast" ActorType.system "tron-gateway"
            (("txHash", tx_hash) ∷ []) after in
        elim (Result-cases (publish_withdrawal_state_change ports now v written_state).0) [
          | inr (x, e) ↦
              absurd
                (unfold broadcast_current send in ground (arith, net, guard, signed, step, e, h))
          | inl (_, e) ↦ (
            unfold broadcast_current send audit append_audit_log in
                ground (arith, net, guard, signed, step, e, h),
            unfold broadcast_current send in
                ground (arith, net, guard, signed, step, e, h, frame.sent_same, noted.sent_same),
            unfold broadcast_current send in
                ground (
                  arith, net, guard, signed, step, e, h, frame.withdrawals_same,
                  noted.withdrawals_same,
                ),
          )
        ]

    broadcast_current-answer :
        (u : Withdrawal)
        → lookup id s.ledger.withdrawals ≡ some w
        → ports.sign (transfer_request ports now id w) ≡ ok tx_hash
        → (broadcast_current ports now id w s).0 ≡ ok (some u)
        → IsBroadcast id s (broadcast_current ports now id w s).1 w u tx_hash
    broadcast_current-answer u found signed h =
        elim (Result-cases (assert_network ports now w.user_id)) [
          | inr (x, e) ↦ absurd (unfold broadcast_current in ground (arith, e, h))
          | inl (_, net) ↦
              elim (Result-cases
                (assert_broadcast_allowed ports.chain ports.guard w.to_address (some w.amount))) [
                  | inr (x, e) ↦ absurd (unfold broadcast_current in ground (arith, net, e, h))
                  | inl (_, guard) ↦ elim (Result-cases ledger_step.0) [
                    | inr (x, e) ↦
                        absurd (
                          unfold broadcast_current send in ground (arith, net, guard, signed, e, h))
                    | inl (v, step) ↦
                        let (approved, updated, written) = ledger_step-approved v found step in
                        let (same, sent, kept) = broadcast-ended u v net guard signed step h in
                        record {
                          approved = approved;
                          allowed = guard;
                          signed = signed;
                          sent_once = sent;
                          updated = cc (same, updated);
                          written = rw same (cc (kept, written));
                        }
                  ]
                ]
        ]

  -- A broadcast that returns a withdrawal found it approved and allowed by the guard, has sent
  -- exactly one transfer, of its amount to its address, and has written it to the ledger as
  -- broadcasted with the hash that the signer gave.
  pub broadcast-answer :
      (id : String) (s : WithdrawState) (u : Withdrawal)
      → (broadcast ports now id s).0 ≡ ok (some u)
      → (w : Withdrawal) × (tx_hash : String) × (lookup id s.ledger.withdrawals ≡ some w)
        × IsBroadcast id s (broadcast ports now id s).1 w u tx_hash
  broadcast-answer id s u h = elim (Option-cases (lookup id s.ledger.withdrawals)) [
    | inl e ↦ absurd (unfold broadcast in ground (arith, e, h))
    | inr (w, e) ↦
        let q : broadcast ports now id s ≡ broadcast_current ports now id w s =
          unfold broadcast in ground (arith, e) in
        let h' : (broadcast_current ports now id w s).0 ≡ ok (some u) = rw q at h in
        elim (Result-cases (ports.sign (transfer_request ports now id w))) [
          | inl (tx_hash, signed) ↦
              (w, tx_hash, e, rw q (broadcast_current-answer id tx_hash w s u e signed h'))
          | inr (x, unsigned) ↦ absurd (unsigned_broadcast id w s x u unsigned h')
        ]
  ]
