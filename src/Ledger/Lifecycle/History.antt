-- ===== src/Ledger/Lifecycle/History.antt =====
-- The history of a withdrawal: what any calls on a new ledger leave of it.
use coin_manage.Base.{
  ℕ, ◌+◌, ◌≤◌, String, true, false, some, none, ◌≡◌, refl, arith, eq_iff, List, [], ◌∷◌, ◌==◌, inl,
  inr, Bool-cases,
}
use coin_manage.Base.Map.{lookup, insert, lookup-insert}
use coin_manage.Contracts.{Host}
use coin_manage.Ledger.Types.Funds.{WithdrawalStatus, Withdrawal}
use coin_manage.Ledger.State.{InMemoryLedger, is_active}
use coin_manage.Ledger.Calls.{Call, perform, run, empty_ledger}
use coin_manage.Ledger.Solvency.{IsDistinct}
use coin_manage.Ledger.Lifecycle.{
  Effect, quiet, requests, authorises, reviews, approves, broadcasts, confirms, fails, requested,
}
use coin_manage.Ledger.Lifecycle.Run.{perform-Effect, run_inv}
use coin_manage.Ledger.Lifecycle.Status.{may_become, Advances, IsUnissued, Effect-Advances}

module _ {host : Host} {s t : InMemoryLedger} (distinct : IsDistinct host) where
  -- Writing over a withdrawal that is there takes no id that is still to be given.
  Replaces-IsUnissued :
      (id : String) (x x' : Withdrawal)
      → lookup id s.withdrawals ≡ some x
      → t.withdrawals ≡ insert id x' s.withdrawals
      → s.issued ≤ t.issued
      → IsUnissued host s
      → IsUnissued host t
  Replaces-IsUnissued id x x' found set grows h = record {
    unissued = λ n le.
        let free : lookup (host.random_uuid n) s.withdrawals ≡ none = h.unissued n (omega arith) in
        rw set (
          ground (
            arith,
            lookup-insert id (host.random_uuid n) x' s.withdrawals,
            eq_iff id (host.random_uuid n),
          ));
  }

  pub Effect-IsUnissued :
      {now : String} → Effect host now s t → IsUnissued host s → IsUnissued host t
  Effect-IsUnissued (quiet same _ grows) h = record {
    unissued = λ n le. rw same (h.unissued n (omega arith));
  }
  Effect-IsUnissued {now} (requests input _ _ set _ grows) h = record {
    unissued = λ n le.
        let free : lookup (host.random_uuid n) s.withdrawals ≡ none = h.unissued n (omega arith) in
        let apart : (host.random_uuid (s.issued + 1) == host.random_uuid n) ≡ false =
          other n le grows in
        rw set (
          ground (
            arith,
            lookup-insert (host.random_uuid (s.issued + 1)) (host.random_uuid n)
                (requested host input now s) s.withdrawals,
          ));
  }
    where
      other :
          (n : ℕ)
          → t.issued ≤ n
          → s.issued + 2 ≤ t.issued
          → (host.random_uuid (s.issued + 1) == host.random_uuid n) ≡ false
      other n le grows = elim (Bool-cases (host.random_uuid (s.issued + 1) == host.random_uuid n)) [
        | inl same ↦
            let q : s.issued + 1 ≡ n =
              distinct (s.issued + 1) n
                (ground (arith, eq_iff (host.random_uuid (s.issued + 1)) (host.random_uuid n))) in
            ground arith
        | inr apart ↦ apart
      ]
  Effect-IsUnissued (authorises id p r x b step) h =
      Replaces-IsUnissued id x _ step.found step.withdrawals_set step.issued_grows h
  Effect-IsUnissued (reviews id x b step) h =
      Replaces-IsUnissued id x _ step.found step.withdrawals_set step.issued_grows h
  Effect-IsUnissued (approves id a input x b c found set _ grows) h =
      Replaces-IsUnissued id x _ found set grows h
  Effect-IsUnissued (broadcasts id tx x b step) h =
      Replaces-IsUnissued id x _ step.found step.withdrawals_set step.issued_grows h
  Effect-IsUnissued (confirms id x b step) h =
      Replaces-IsUnissued id x _ step.found step.withdrawals_set step.issued_grows h
  Effect-IsUnissued (fails id reason x b step) h =
      Replaces-IsUnissued id x _ step.found step.withdrawals_set step.issued_grows h

edge-settled :
    (old new : WithdrawalStatus) → may_become old new ≡ true → is_active old ≡ false → new ≡ old
edge-settled old new e done = ground arith

settled_stays :
    {w w' : Withdrawal} → Advances w w' → is_active w.status ≡ false → w'.status ≡ w.status
settled_stays {w} {w'} moves done = edge-settled w.status w'.status moves.edge done

module _ (host : Host) (distinct : IsDistinct host) where
  run-IsUnissued : (calls : List (String × Call)) → IsUnissued host (run host calls empty_ledger)
  unfolding lookup
  run-IsUnissued calls =
      run_inv host (IsUnissued host) (λ now s t step. Effect-IsUnissued distinct step) calls
        empty_ledger (record { unissued = λ n le. refl })

  -- After any calls on a new ledger, a further call, whatever it is, leaves every withdrawal in the
  -- map: its status stays or moves along an edge of `may_become`, and its user, amount, address,
  -- idempotency key, transaction, creation time and number of required approvals stay.
  -- `randomUUID` never repeats itself.
  pub perform-Advances :
      (calls : List (String × Call)) (now : String) (call : Call) (id : String) (w : Withdrawal)
      → lookup id (run host calls empty_ledger).withdrawals ≡ some w
      → (w' : Withdrawal) × (lookup id
            (perform host now call (run host calls empty_ledger)).withdrawals
          ≡ some w')
        × Advances w w'
  perform-Advances calls now call id w e =
      Effect-Advances id w (perform-Effect host now call (run host calls empty_ledger))
        (run-IsUnissued calls) e

  run_from-settled :
      (calls : List (String × Call)) (s : InMemoryLedger) (id : String) (w : Withdrawal)
      → IsUnissued host s
      → lookup id s.withdrawals ≡ some w
      → is_active w.status ≡ false
      → (w' : Withdrawal) × (lookup id (run host calls s).withdrawals ≡ some w')
        × (w'.status ≡ w.status)
        × (w'.amount ≡ w.amount)
  unfolding run
  run_from-settled [] s id w h e done = (w, e, refl, refl)
  run_from-settled ((now, call) ∷ calls) s id w h e done =
      let step = perform-Effect host now call s in
      let (x, found, moves) = Effect-Advances id w step h e in
      let stays : x.status ≡ w.status = settled_stays moves done in
      let (w', last, status_same, amount_same) =
        run_from-settled calls (perform host now call s) id x (Effect-IsUnissued distinct step h)
          found (ground arith) in
      (w', last, ground arith, ground arith)

  -- After any calls on a new ledger, a withdrawal that is completed, failed or rejected keeps its
  -- status and its amount through any calls that follow. `randomUUID` never repeats itself.
  pub run-settled :
      (calls later : List (String × Call)) (id : String) (w : Withdrawal)
      → lookup id (run host calls empty_ledger).withdrawals ≡ some w
      → is_active w.status ≡ false
      → (w' : Withdrawal) × (lookup id (run host later (run host calls empty_ledger)).withdrawals
          ≡ some w')
        × (w'.status ≡ w.status)
        × (w'.amount ≡ w.amount)
  run-settled calls later id w e done =
      run_from-settled later (run host calls empty_ledger) id w (run-IsUnissued calls) e done
