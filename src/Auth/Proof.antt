-- ===== src/Auth/Proof.antt =====
-- backend/src/modules/auth/services/auth-proof.service.ts with its two scripts: the authorizations
-- that a verified code or a login gives out, which are consumed once. The hash function is a
-- parameter, and a random token is an argument. `answers` says whether Redis answers the call.
pub mod Laws
use kori.Common.{Bool, true, false, Option, none, some, ℕ, not, ◌&&◌, ◌++◌, if◌then◌else◌}
use kori.Common.Result.{Result, ok, err, service_unavailable}
use kori.Common.Text.{Text, text, ◌==◌}
use kori.Auth.Redis.{
  Redis, Value, RegistrationAuthorizationState, DeviceEnrollmentAuthorizationState, as_registration,
  as_enrollment,
}

pub data AuthorizationConsumeStatus : Type 0 where
  consumed missing invalid : AuthorizationConsumeStatus

pub record IssuedAuthorization : Type 0 where
  pub token : Text
  pub expires_in : ℕ

abbrev pub registration_authorization_key : Text → Text
registration_authorization_key phone =
    text "auth:registration:{" ++ (phone ++ text "}:authorization")

abbrev pub device_enrollment_authorization_key : Text → Text
device_enrollment_authorization_key phone =
    text "auth:device-enrollment:{" ++ (phone ++ text "}:authorization")

-- Whether a stored proof is the one that the script's arguments describe.
abbrev pub is_registration_of :
    RegistrationAuthorizationState → RegistrationAuthorizationState → Bool
is_registration_of proof asked =
    proof.token_hash == asked.token_hash
    && (proof.phone == asked.phone && proof.device_id == asked.device_id)

abbrev pub is_enrollment_of :
    DeviceEnrollmentAuthorizationState → DeviceEnrollmentAuthorizationState → Bool
is_enrollment_of proof asked =
    proof.token_hash == asked.token_hash
    && (proof.user_id == asked.user_id
        && (proof.phone == asked.phone && proof.device_id == asked.device_id))

module _ (R : Redis) (hash_token : Text → Text) where
  open R use {State, get, set, del}

  -- CONSUME_REGISTRATION_AUTHORIZATION_SCRIPT; none is a Lua error.
  unfoldable pub consume_registration_script :
      RegistrationAuthorizationState → State → Option AuthorizationConsumeStatus × State
  consume_registration_script asked s = elim (get (registration_authorization_key asked.phone) s) [
    | none ↦ (some AuthorizationConsumeStatus.missing, s)
    | some value ↦ elim (as_registration value) [
      | none ↦ (none, s)
      | some proof ↦
          if not (is_registration_of proof asked)
          then (some AuthorizationConsumeStatus.invalid, s)
          else (
            some AuthorizationConsumeStatus.consumed,
            del (registration_authorization_key asked.phone) s,
          )
    ]
  ]

  -- CONSUME_DEVICE_ENROLLMENT_AUTHORIZATION_SCRIPT; none is a Lua error.
  unfoldable pub consume_device_enrollment_script :
      DeviceEnrollmentAuthorizationState → State → Option AuthorizationConsumeStatus × State
  consume_device_enrollment_script asked s =
      elim (get (device_enrollment_authorization_key asked.phone) s) [
        | none ↦ (some AuthorizationConsumeStatus.missing, s)
        | some value ↦ elim (as_enrollment value) [
          | none ↦ (none, s)
          | some proof ↦
              if not (is_enrollment_of proof asked)
              then (some AuthorizationConsumeStatus.invalid, s)
              else (
                some AuthorizationConsumeStatus.consumed,
                del (device_enrollment_authorization_key asked.phone) s,
              )
        ]
      ]

  abbrev or_unavailable : Option AuthorizationConsumeStatus → Result AuthorizationConsumeStatus
  or_unavailable none =
      err (service_unavailable (text "Authentication service temporarily unavailable."))
  or_unavailable (some status) = ok status

  -- `consumeAuthorization`.
  unfoldable pub consume_authorization :
      Bool
      → (State → Option AuthorizationConsumeStatus × State)
      → State
      → Result AuthorizationConsumeStatus × State
  consume_authorization false script s =
      (err (service_unavailable (text "Authentication service temporarily unavailable.")), s)
  consume_authorization true script s = let (status, s') = script s in (or_unavailable status, s')

  unfoldable pub issue_registration_authorization :
      Bool → ℕ → Text → Text → Text → State → Result IssuedAuthorization × State
  issue_registration_authorization answers ttl token phone device_id s =
      if not answers
      then (err (service_unavailable (text "Authentication service temporarily unavailable")), s)
      else (
        ok (record { token = token; expires_in = ttl }),
        set (registration_authorization_key phone)
            (Value.registration
              (record { token_hash = hash_token token; phone = phone; device_id = device_id }))
            ttl s,
      )

  unfoldable pub consume_registration_authorization :
      Bool → Text → Text → Text → State → Result AuthorizationConsumeStatus × State
  unfolding consume_registration_script consume_authorization
  consume_registration_authorization answers phone device_id token s =
      consume_authorization answers
        (consume_registration_script
          (record { token_hash = hash_token token; phone = phone; device_id = device_id }))
        s

  unfoldable pub issue_device_enrollment_authorization :
      Bool → ℕ → Text → Text → Text → Text → State → Result IssuedAuthorization × State
  issue_device_enrollment_authorization answers ttl token user_id phone device_id s =
      if not answers
      then (err (service_unavailable (text "Authentication service temporarily unavailable.")), s)
      else (
        ok (record { token = token; expires_in = ttl }),
        set (device_enrollment_authorization_key phone)
            (Value.enrollment (record {
              token_hash = hash_token token;
              user_id = user_id;
              phone = phone;
              device_id = device_id;
            }))
            ttl s,
      )

  unfoldable pub consume_device_enrollment_authorization :
      Bool → Text → Text → Text → Text → State → Result AuthorizationConsumeStatus × State
  unfolding consume_device_enrollment_script consume_authorization
  consume_device_enrollment_authorization answers user_id phone device_id token s =
      consume_authorization answers
        (consume_device_enrollment_script (record {
          token_hash = hash_token token;
          user_id = user_id;
          phone = phone;
          device_id = device_id;
        }))
        s
