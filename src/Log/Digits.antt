-- ===== src/Log/Digits.antt =====
-- How long the numbers are that src/logger.h and src/http.c print.
use simle_http_server.Prelude.{
  ℕ, zero, suc, ◌+◌, ◌/◌, ◌%◌, ◌≤◌, [], ◌∷◌, arith, ℤ, pos, negsuc, length, length-append,
}
use simle_http_server.Text.{digits, decimal}
use simle_http_server.Log.{decimal_int}

length-digits : (fuel n : ℕ) → length (digits fuel n) ≤ fuel
unfolding digits
length-digits zero n = omega arith
length-digits (suc fuel) n = ground (
  arith,
  length-digits fuel (n / 10),
  length-append (digits fuel (n / 10)) ((b'0' + n % 10) ∷ []),
)

pub length-decimal : (n : ℕ) → length (decimal n) ≤ 20
unfolding decimal
length-decimal n = length-digits 20 n

pub length-decimal_int : (n : ℤ) → length (decimal_int n) ≤ 21
unfolding decimal_int
length-decimal_int (pos n) = omega (arith, length-decimal n)
length-decimal_int (negsuc n) = omega (arith, length-decimal (n + 1))
