-- ===== src/Prelude/Machine.antt =====
-- The C side of the models: size_t arithmetic, int values, arrays, and runs that may stop the
-- process.
use Prim.Native.Nat.{ℕ, ◌+◌, ◌-◌, ◌%◌, ◌^◌}
use mathlib.Core.Path.{◌≡◌, refl}
use mathlib.Core.Bool.{Bool, true, false}
use simle_http_server.Prelude.Tests.{ltb, ◌==◌, if◌then◌else◌}

-- `size_t` has 64 bits and wraps.
abbrev pub add_size : ℕ → ℕ → ℕ
add_size a b = (a + b) % 2 ^ 64

abbrev pub sub_size : ℕ → ℕ → ℕ
sub_size a b = (a + 2 ^ 64 - b) % 2 ^ 64

-- A value of type `int`; `negsuc n` is -(n + 1).
pub data ℤ : Type 0 where
  pos : ℕ → ℤ
  negsuc : ℕ → ℤ

-- The cast `(int) n` of a `size_t`.
abbrev pub int_of_size : ℕ → ℤ
int_of_size n =
    if ltb (n % 2 ^ 32) (2 ^ 31) then pos (n % 2 ^ 32) else negsuc (2 ^ 32 - n % 2 ^ 32 - 1)

abbrev pub int_eq : ℤ → ℤ → Bool
int_eq (pos a) (pos b) = a == b
int_eq (pos a) (negsuc b) = false
int_eq (negsuc a) (pos b) = false
int_eq (negsuc a) (negsuc b) = a == b

abbrev pub int_is_negative : ℤ → Bool
int_is_negative (pos n) = false
int_is_negative (negsuc n) = true

-- `a[i] = v` on an array, which is a function of the index.
abbrev pub update {ℓ} : {A : Type ℓ} → (ℕ → A) → ℕ → A → ℕ → A
update f i v j = if j == i then v else f j

-- How a call can stop the process: a failed assert, a call of exit, or undefined behaviour (a
-- read or write outside an object, or through a null or freed pointer). `out_of_fuel` is no event of
-- the program: a loop of the model stopped before the loop of the source.
pub data Fault : Type 0 where
  assertion exited undefined out_of_fuel : Fault

pub data Outcome {ℓ} (A : Type ℓ) : Type ℓ where
  crash : Fault → Outcome A
  ok : A → Outcome A

-- `assert(b)`
abbrev pub assert : Bool → Outcome (Unit {0})
assert false = crash assertion
assert true = ok tt

-- One part of a run after another.
infixl 5 ◌>>=◌
abbrev pub ◌>>=◌ {ℓ κ} :
    {A : Type ℓ} {B : Type κ} (run : Outcome A) (next : A → Outcome B) → Outcome B
crash fault >>= next = crash fault
ok result >>= next = next result

infixl 5 ◌>>◌
abbrev pub ◌>>◌ {κ} : {B : Type κ} (run : Outcome (Unit {0})) (next : Outcome B) → Outcome B
run >> next = run >>= λ done. next

pub >>=-eq-ok {ℓ κ} :
    {A : Type ℓ} {B : Type κ} {b : B} (run : Outcome A) (next : A → Outcome B)
    (e : (run >>= next) ≡ ok b)
    → (a : A) × (run ≡ ok a) × (next a ≡ ok b)
>>=-eq-ok (crash fault) next e = cc
>>=-eq-ok (ok result) next e = (result, refl, e)
