-- ===== src/Ledger/Accounts/Tests.antt =====
-- Bindings on the small ledger of Ledger.Tests.
use coin_manage.Base.{String, some, ◌≡◌, refl, List, [], ◌∷◌}
use coin_manage.Base.Map.{lookup, insert, erase}
use coin_manage.Ledger.Accounts.{bind_wallet_address}
use coin_manage.Ledger.Calls.{Call, run, perform, empty_ledger}
use coin_manage.Ledger.Accounts.Bindings.{IsInverse, address_of}
use coin_manage.Ledger.Accounts.BindingRuns.{run-IsInverse}
use coin_manage.Ledger.Tests.{host, today}

-- A user moves to another address, and the first address goes to somebody else.
abbrev moves : List (String × Call)
moves =
    (today, Call.bind_wallet_address "ann" "T-1")
    ∷ (today, Call.bind_wallet_address "ann" "T-2")
    ∷ (today, Call.bind_wallet_address "bob" "T-1")
    ∷ (today, Call.bind_wallet_address "bob" "T-2")
    ∷ []

bob_stays : address_of "bob" (run host moves empty_ledger).wallet_bindings_by_user_id ≡ some "T-1"
unfolding run perform bind_wallet_address lookup insert erase
bob_stays = refl

run-IsInverse_example :
    IsInverse
      (run host moves empty_ledger).wallet_bindings_by_user_id
      (run host moves empty_ledger).user_id_by_wallet_address
run-IsInverse_example = run-IsInverse host moves (refl, (refl, (refl, (refl, tt))))
