-- ===== src/Prelude/Results.antt =====
-- A call that may raise: the exceptions of the program, by class, and a result type with `do`.
use Prim.Native.Nat.{ℕ}
use mathlib.Core.Path.{◌≡◌, refl}
use mathlib.Core.Bool.{Bool, true, false}
use mathlib.Core.Option.{Option, none, some}

-- Python's own exceptions, those of the cryptography package and those of exceptions.py. The
-- message of an exception is not modelled; the index of a chunk is. `no_entropy` is no exception: the
-- random draws that the model was given ran out.
pub data Error : Type 0 where
  value_error key_error overflow_error assertion_error runtime_error attribute_error type_error
        no_entropy :
      Error
  invalid_tag file_not_found : Error
  sm2_format sm2_decrypt zero_keystream suite_negotiation version_negotiation message_schema : Error
  struct_error artifact_corrupted file_too_large file_transfer : Error
  chunk_integrity : ℕ → Error

pub data Result {ℓ} (A : Type ℓ) : Type ℓ where
  ok : A → Result A
  err : Error → Result A

-- The chain of a do block: the first error ends it.
infixl 5 ◌>>=◌
abbrev pub ◌>>=◌ {ℓ κ} :
    {Value : Type ℓ} {Next : Type κ} → Result Value → (Value → Result Next) → Result Next
err raised >>= next = err raised
ok value >>= next = next value

-- A step that returns nothing of use.
infixl 5 ◌>>◌
abbrev pub ◌>>◌ {ℓ} : {Next : Type ℓ} → Result (Unit {0}) → Result Next → Result Next
first >> second = first >>= λ _. second

-- `if not b: raise e`
abbrev pub guard : Bool → Error → Result (Unit {0})
guard true e = ok tt
guard false e = err e

-- `d[k]`: a missing key raises.
abbrev pub require {ℓ} : {A : Type ℓ} → Option A → Error → Result A
require none e = err e
require (some a) e = ok a

abbrev pub get_default {ℓ} : {A : Type ℓ} → Option A → A → A
get_default none d = d
get_default (some a) d = a

pub guard-eq-ok : (b : Bool) (e : Error) {u : Unit {0}} → guard b e ≡ ok u → b ≡ true
guard-eq-ok true e h = refl
guard-eq-ok false e h = cc

pub require-eq-ok {ℓ} :
    {A : Type ℓ} (o : Option A) (e : Error) {a : A} → require o e ≡ ok a → o ≡ some a
require-eq-ok none e h = cc
require-eq-ok (some x) e h = cc

pub ok-injective {ℓ} : {A : Type ℓ} {a b : A} → ok a ≡ ok b → a ≡ b
ok-injective h = cc

-- Inversion of a chain that succeeded, handing its parts on.
pub unbind {ℓ κ μ} :
    {A : Type ℓ} {B : Type κ} {P : Type μ} (m : Result A) {f : A → Result B} {b : B}
    → (m >>= f) ≡ ok b
    → ((a : A) → m ≡ ok a → f a ≡ ok b → P)
    → P
unbind (ok a) h k = k a refl h
unbind (err e) h k = absurd (cc)

-- The errors that `except ValueError` takes: those whose class derives from it.
abbrev pub is_value_error : Error → Bool
is_value_error value_error = true
is_value_error suite_negotiation = true
is_value_error version_negotiation = true
is_value_error message_schema = true
is_value_error other = false
