-- ===== src/Common/Result.antt =====
-- What a call returns or throws, and the exceptions of the backend: Nest's HttpException with its
-- status, optional code and message, a plain Error, and an error of the database driver.
use Prim.Native.Nat.{ℕ}
use mathlib.Core.Bool.{Bool, true, false}
use mathlib.Core.Option.{Option, none, some}
use mathlib.Core.Path.{◌≡◌, refl}
use kori.Common.Text.{Text}

pub data Exception : Type 0 where
  http : ℕ → Option Text → Text → Exception
  error : Text → Exception
  prisma : Text → Exception
  -- DeviceVerificationRequiredException, with the token and its lifetime as details.
  device_verification_required : Text → ℕ → Exception

pub data Result {ℓ} (A : Type ℓ) : Type ℓ where
  ok : A → Result A
  err : Exception → Result A

-- What a call goes on with, once `await` has given its value; an exception passes through.
abbrev pub await_then {a b} : {X : Type a} {Y : Type b} → (X → Result Y) → Result X → Result Y
await_then next (err thrown) = err thrown
await_then next (ok value) = next value

infixl 5 ◌>>=◌
abbrev pub ◌>>=◌ {a b} : {X : Type a} {Y : Type b} → Result X → (X → Result Y) → Result Y
call >>= next = await_then next call

infixl 5 ◌>>◌
abbrev pub ◌>>◌ {b} : {Y : Type b} → Result (Unit {0}) → Result Y → Result Y
check >> rest = await_then (λ _. rest) check

-- `if (test) { throw exception; }`
abbrev pub throw_if : Bool → Exception → Result (Unit {0})
throw_if true e = err e
throw_if false e = ok tt

abbrev pub or_throw {ℓ} : {A : Type ℓ} → Option A → Exception → Result A
or_throw none e = err e
or_throw (some a) e = ok a

abbrev pub is_ok {ℓ} : {A : Type ℓ} → Result A → Bool
is_ok (ok _) = true
is_ok (err _) = false

-- Nest's exception classes, by status.
abbrev pub bad_request : Text → Exception
bad_request m = http 400 none m

abbrev pub unauthorized : Text → Exception
unauthorized m = http 401 none m

abbrev pub forbidden : Text → Exception
forbidden m = http 403 none m

abbrev pub not_found : Text → Exception
not_found m = http 404 none m

abbrev pub conflict : Text → Exception
conflict m = http 409 none m

abbrev pub too_many_requests : Text → Exception
too_many_requests m = http 429 none m

abbrev pub internal_server_error : Text → Exception
internal_server_error m = http 500 none m

abbrev pub service_unavailable : Text → Exception
service_unavailable m = http 503 none m

-- A chain that succeeds has succeeded in both parts.
pub >>=-ok {ℓ κ} :
    {A : Type ℓ} {B : Type κ} (m : Result A) (f : A → Result B) (b : B)
    → (m >>= f) ≡ ok b
    → (a : A) × (m ≡ ok a) × (f a ≡ ok b)
>>=-ok (ok a) f b h = (a, refl, h)
>>=-ok (err e) f b h = absurd (cc)
