-- ===== src/Money/Tests.antt =====
-- Runs of core/money.ts on single amounts.
use coin_manage.Base.{◌≡◌, refl}
use coin_manage.Base.Int.{pos, negsuc}
use coin_manage.Base.Action.{domain_error, ok, err}
use coin_manage.Money.{format_kori_amount, parse_stored_kori_amount}

format_tests :
    (format_kori_amount (pos 1_234_567_890) ≡ "1234.567890")
    × (format_kori_amount (negsuc 41) ≡ "-0.000042")
    × (format_kori_amount (pos 0) ≡ "0.000000")
unfolding format_kori_amount
format_tests = (refl, refl, refl)

parse_tests :
    (parse_stored_kori_amount " 12.5 " ≡ ok (pos 12_500_000))
    × (parse_stored_kori_amount "-0.000042" ≡ ok (negsuc 41))
    × (parse_stored_kori_amount "7" ≡ ok (pos 7_000_000))
unfolding parse_stored_kori_amount
parse_tests = (refl, refl, refl)

parse_refused :
    parse_stored_kori_amount "1.2345678"
    ≡ err (domain_error 500 "STATE_CORRUPTED" "invalid stored KORI amount")
unfolding parse_stored_kori_amount
parse_refused = refl
