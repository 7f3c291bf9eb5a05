-- ===== src/Auth/Proof/Laws.antt =====
-- What the authorizations guarantee: an issued one is consumed by its token and never again, and
-- nothing else is consumed.
use kori.Common.{◌≡◌, ◌∙◌, ap, Bool, true, false, none, some, arith, ℕ, ◌<◌, Option-cases, inl, inr}
use kori.Common.Result.{ok}
use kori.Common.Text.{Text}
use kori.Auth.Redis.{
  Redis, Value, RegistrationAuthorizationState, DeviceEnrollmentAuthorizationState, as_registration,
  as_enrollment,
}
use kori.Auth.Proof.{
  AuthorizationConsumeStatus, registration_authorization_key, device_enrollment_authorization_key,
  is_registration_of, is_enrollment_of, consume_registration_script,
  consume_device_enrollment_script, consume_authorization, issue_registration_authorization,
  consume_registration_authorization, issue_device_enrollment_authorization,
  consume_device_enrollment_authorization,
}

same_registration : (p a : RegistrationAuthorizationState) → is_registration_of p a ≡ true → p ≡ a
same_registration p a h = ground arith

same_enrollment : (p a : DeviceEnrollmentAuthorizationState) → is_enrollment_of p a ≡ true → p ≡ a
same_enrollment p a h = ground arith

as_registration-some :
    (v : Value) (r : RegistrationAuthorizationState)
    → as_registration v ≡ some r
    → v ≡ Value.registration r
as_registration-some v r h = ground arith

as_enrollment-some :
    (v : Value) (e : DeviceEnrollmentAuthorizationState)
    → as_enrollment v ≡ some e
    → v ≡ Value.enrollment e
as_enrollment-some v e h = ground arith

module _ (R : Redis) (hash_token : Text → Text) where
  open R use {State, get, set, del, elapse}

  still_absent : (k : Text) (t : ℕ) (s : State) → get k s ≡ none → get k (elapse t s) ≡ none
  still_absent k t s h = elim (R.get-elapse k t s) [ inl e ↦ e ∙ h | inr e ↦ e ]

  -- A registration authorization is consumed only if the one that is stored for the phone number
  -- has the token's hash and the device, and it is then deleted.
  pub consume_registration_authorization_sound :
      (answers : Bool) (phone device_id token : Text) (s : State)
      → (consume_registration_authorization R hash_token answers phone device_id token s).0
        ≡ ok AuthorizationConsumeStatus.consumed
      → (get (registration_authorization_key phone) s
          ≡ some (
              Value.registration
                (record { token_hash = hash_token token; phone = phone; device_id = device_id })))
        × ((consume_registration_authorization R hash_token answers phone device_id token s).1
            ≡ del (registration_authorization_key phone) s)
  unfolding consume_registration_authorization consume_authorization consume_registration_script
  consume_registration_authorization_sound false phone device_id token s h = absurd (ground arith)
  consume_registration_authorization_sound true phone device_id token s h =
      elim (Option-cases (get (registration_authorization_key phone) s)) [
        | inl e ↦ absurd (ground arith)
        | inr (v, found) ↦ elim (Option-cases (as_registration v)) [
          | inl e ↦ absurd (ground arith)
          | inr (p, is_p) ↦ (
            found
                ∙ ap some (
                    as_registration-some v p is_p
                    ∙ ap Value.registration (
                        same_registration p
                          (record {
                            token_hash = hash_token token;
                            phone = phone;
                            device_id = device_id;
                          })
                          (ground arith))),
            ground arith,
          )
        ]
      ]

  -- An issued registration authorization is consumed by its token, phone number and device, and
  -- after that, and however much later, there is none for the phone number before the next issue.
  pub consume_registration_authorization_once :
      (ttl t : ℕ) (phone device_id token other_device other_token : Text) (s : State)
      → 0 < ttl
      → let issued =
          (issue_registration_authorization R hash_token true ttl token phone device_id s).1 in
        let used = del (registration_authorization_key phone) issued in
        (consume_registration_authorization R hash_token true phone device_id token issued
          ≡ (ok AuthorizationConsumeStatus.consumed, used))
        × (consume_registration_authorization R hash_token true phone other_device other_token
              (elapse t used)
            ≡ (ok AuthorizationConsumeStatus.missing, elapse t used))
  unfolding issue_registration_authorization consume_registration_authorization
      consume_authorization consume_registration_script
  consume_registration_authorization_once ttl t phone device_id token other_device other_token s
        alive =
      (
        ground (
          arith,
          R.get-set (registration_authorization_key phone)
              (Value.registration
                (record { token_hash = hash_token token; phone = phone; device_id = device_id }))
              ttl s alive,
        ),
        ground (
          arith,
          still_absent (registration_authorization_key phone) t _ (
              R.get-del (registration_authorization_key phone) (
                set (registration_authorization_key phone)
                  (Value.registration (record {
                    token_hash = hash_token token;
                    phone = phone;
                    device_id = device_id;
                  }))
                  ttl s)),
        ),
      )

  -- A device enrollment authorization is consumed only if the one that is stored for the phone
  -- number has the token's hash, the user and the device, and it is then deleted.
  pub consume_device_enrollment_authorization_sound :
      (answers : Bool) (user_id phone device_id token : Text) (s : State)
      → (consume_device_enrollment_authorization R hash_token answers user_id phone device_id token
          s).0
        ≡ ok AuthorizationConsumeStatus.consumed
      → (get (device_enrollment_authorization_key phone) s
          ≡ some (
              Value.enrollment (record {
                token_hash = hash_token token;
                user_id = user_id;
                phone = phone;
                device_id = device_id;
              })))
        × ((consume_device_enrollment_authorization R hash_token answers user_id phone device_id
              token s).1
            ≡ del (device_enrollment_authorization_key phone) s)
  unfolding consume_device_enrollment_authorization consume_authorization
      consume_device_enrollment_script
  consume_device_enrollment_authorization_sound false user_id phone device_id token s h =
      absurd (ground arith)
  consume_device_enrollment_authorization_sound true user_id phone device_id token s h =
      elim (Option-cases (get (device_enrollment_authorization_key phone) s)) [
        | inl e ↦ absurd (ground arith)
        | inr (v, found) ↦ elim (Option-cases (as_enrollment v)) [
          | inl e ↦ absurd (ground arith)
          | inr (p, is_p) ↦ (
            found
                ∙ ap some (
                    as_enrollment-some v p is_p
                    ∙ ap Value.enrollment (
                        same_enrollment p
                          (record {
                            token_hash = hash_token token;
                            user_id = user_id;
                            phone = phone;
                            device_id = device_id;
                          })
                          (ground arith))),
            ground arith,
          )
        ]
      ]

  -- An issued device enrollment authorization is consumed by its token, user, phone number and
  -- device, and after that, and however much later, there is none for the phone number before the
  -- next issue.
  pub consume_device_enrollment_authorization_once :
      (ttl t : ℕ) (user_id phone device_id token other_user other_device other_token : Text)
      (s : State)
      → 0 < ttl
      → let issued =
          (issue_device_enrollment_authorization R hash_token true ttl token user_id phone device_id
            s).1 in
        let used = del (device_enrollment_authorization_key phone) issued in
        (consume_device_enrollment_authorization R hash_token true user_id phone device_id token
            issued
          ≡ (ok AuthorizationConsumeStatus.consumed, used))
        × (consume_device_enrollment_authorization R hash_token true other_user phone other_device
              other_token
              (elapse t used)
            ≡ (ok AuthorizationConsumeStatus.missing, elapse t used))
  unfolding issue_device_enrollment_authorization consume_device_enrollment_authorization
      consume_authorization consume_device_enrollment_script
  consume_device_enrollment_authorization_once ttl t user_id phone device_id token other_user
        other_device other_token s alive =
      (
        ground (
          arith,
          R.get-set (device_enrollment_authorization_key phone)
              (Value.enrollment (record {
                token_hash = hash_token token;
                user_id = user_id;
                phone = phone;
                device_id = device_id;
              }))
              ttl s alive,
        ),
        ground (
          arith,
          still_absent (device_enrollment_authorization_key phone) t _ (
              R.get-del (device_enrollment_authorization_key phone) (
                set (device_enrollment_authorization_key phone)
                  (Value.enrollment (record {
                    token_hash = hash_token token;
                    user_id = user_id;
                    phone = phone;
                    device_id = device_id;
                  }))
                  ttl s)),
        ),
      )
