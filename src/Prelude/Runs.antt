-- ===== src/Prelude/Runs.antt =====
-- Postconditions of runs: a run is safe for a condition if its result meets it. Any fault is allowed but
-- that of a loop that ran out of fuel.
use mathlib.Core.Path.{◌≡◌, refl, ap}
use mathlib.Core.Logic.{◌≢◌}
use mathlib.Core.Bool.{Bool, true, false}
use native.Mathlib.Omega.{arith}
use mathlib.Core.Option.{Option, none, some}
use simle_http_server.Prelude.Tests.{if◌then◌else◌}
use simle_http_server.Prelude.Machine.{
  Outcome, ok, crash, Fault, undefined, assertion, exited, out_of_fuel, assert, ◌>>=◌,
}

pub data Safe {A : Type 0} (P : A → Type 0) : Outcome A → Type 0 where
  done : (a : A) → P a → Safe P (ok a)
  fault : (f : Fault) → f ≢ out_of_fuel → Safe P (crash f)

-- A run of which no more is said than that it ends.
abbrev pub Ran : {A : Type 0} → Outcome A → Type 0
Ran = Safe (λ _. Unit {0})

pub ran : {A : Type 0} (a : A) → Ran (ok a)
ran a = Safe.done a tt

pub undefined-Safe : {A : Type 0} {P : A → Type 0} → Safe P (crash undefined)
undefined-Safe = Safe.fault undefined (ground arith)

pub assertion-Safe : {A : Type 0} {P : A → Type 0} → Safe P (crash assertion)
assertion-Safe = Safe.fault assertion (ground arith)

pub exited-Safe : {A : Type 0} {P : A → Type 0} → Safe P (crash exited)
exited-Safe = Safe.fault exited (ground arith)

pub Safe-bind :
    {A B : Type 0} (P : A → Type 0) {Q : B → Type 0} {m : Outcome A} {k : A → Outcome B}
    → Safe P m
    → ((a : A) → P a → Safe Q (k a))
    → Safe Q (m >>= k)
Safe-bind P (Safe.done a p) next = next a p
Safe-bind P (Safe.fault f n) next = Safe.fault f n

pub Safe-assert : (b : Bool) → Safe (λ _. b ≡ true) (assert b)
Safe-assert true = Safe.done tt refl
Safe-assert false = assertion-Safe

pub Safe-if :
    {A : Type 0} {P : A → Type 0} {b : Bool} {m n : Outcome A}
    → (b ≡ true → Safe P m)
    → (b ≡ false → Safe P n)
    → Safe P (if b then m else n)
Safe-if {b = true} h k = h refl
Safe-if {b = false} h k = k refl

pub Safe-option :
    {A B : Type 0} {P : B → Type 0} {m : Outcome B} {k : A → Outcome B} (o : Option A)
    → Safe P m
    → ((a : A) → Safe P (k a))
    → Safe P (elim o [ none ↦ m | some a ↦ k a ])
Safe-option none s next = s
Safe-option (some a) s next = next a

-- A run that is known.
pub Safe-eq : {A : Type 0} {P : A → Type 0} {m : Outcome A} (a : A) → m ≡ ok a → P a → Safe P m
Safe-eq a e p = rw e (Safe.done a p)

pub Safe-of :
    {A : Type 0} {P : A → Type 0} (m : Outcome A)
    → m ≢ crash out_of_fuel
    → ((a : A) → m ≡ ok a → P a)
    → Safe P m
Safe-of (ok a) ends post = Safe.done a (post a refl)
Safe-of (crash f) ends post = Safe.fault f (λ e. ends (ap crash e))

-- The condition of a run that has a result.
pub Safe-ok : {A : Type 0} {P : A → Type 0} {m : Outcome A} (a : A) → Safe P m → m ≡ ok a → P a
Safe-ok a (Safe.done b p) e = let same : b ≡ a = cc in rw (← same) p
Safe-ok a (Safe.fault f n) e = cc

-- No run that is safe runs out of fuel.
pub Safe-ends : {A : Type 0} {P : A → Type 0} {m : Outcome A} → Safe P m → m ≢ crash out_of_fuel
Safe-ends (Safe.done a p) e = cc
Safe-ends (Safe.fault f n) e = n (cc)
