-- ===== src/Auth/Otp/Laws.antt =====
-- What the verification script guarantees: which request it accepts, that a code is used once, and
-- that wrong codes lock the phone number out.
use kori.Common.{
  ◌≡◌, ◌≢◌, sym, ◌∙◌, ap, subst, true, Option, none, some, [], ◌∷◌, ◌++◌, arith, ℕ, ◌<◌, ◌≤◌,
  Bool-cases, Option-cases, inl, inr, ◌&&◌, leb,
}
use kori.Common.Text.{Text, text, ◌==◌}
use kori.Auth.Redis.{Redis, Value, OtpChallenge, counter, is_string, as_otp_challenge}
use kori.Auth.Otp.{
  OtpVerificationStatus, OtpRequest, OtpLimits, otp_prefix, otp_challenge_key,
  otp_active_challenge_key, otp_failure_key, verify_otp_script,
}

pub ++-cancel : (p a b : Text) → p ++ a ≡ p ++ b → a ≡ b
++-cancel [] a b h = h
++-cancel (c ∷ p) a b h = ++-cancel p a b (tail_inj h)
  where
    tail_inj : {x : ℕ} {s t : Text} → x ∷ s ≡ x ∷ t → s ≡ t
    tail_inj e = cc

pub failure≢active : (phone : Text) → otp_failure_key phone ≢ otp_active_challenge_key phone
unfolding text
failure≢active phone h = clash (++-cancel (otp_prefix phone) _ _ h)
  where
    clash : text "failures" ≢ text "active"
    clash e = cc

pub failure≢challenge : (phone id : Text) → otp_failure_key phone ≢ otp_challenge_key phone id
unfolding text
failure≢challenge phone id h = clash (++-cancel (otp_prefix phone) _ _ h)
  where
    clash : text "failures" ≢ text "challenge:" ++ id
    clash e = cc

pub active≢challenge :
    (phone id : Text) → otp_active_challenge_key phone ≢ otp_challenge_key phone id
unfolding text
active≢challenge phone id h = clash (++-cancel (otp_prefix phone) _ _ h)
  where
    clash : text "active" ≢ text "challenge:" ++ id
    clash e = cc

-- The request to an open challenge with an otp.
abbrev pub asking : Text → Text → Text → Text → OtpRequest
asking phone device_id challenge_id otp = record {
  phone = phone;
  device_id = device_id;
  challenge_id = challenge_id;
  otp = otp;
}

module _ (R : Redis) where
  open R use {State, get, del, incr, expire, elapse}

  -- A challenge is open: it is the active one of the phone number, and it stores the code for the
  -- device.
  pub record IsOpen (phone device_id challenge_id code : Text) (s : State) : Type 0 where
    pub active : Value
    pub found_active : get (otp_active_challenge_key phone) s ≡ some active
    pub is_active : is_string active challenge_id ≡ true
    pub found :
        get (otp_challenge_key phone challenge_id) s
        ≡ some (Value.otp_challenge (record { phone = phone; device_id = device_id; code = code }))

  same_challenge :
      (q : OtpRequest) (c : OtpChallenge)
      → (c.phone == q.phone && c.device_id == q.device_id) ≡ true
      → (c.code == q.otp) ≡ true
      → c ≡ record { phone = q.phone; device_id = q.device_id; code = q.otp }
  same_challenge q c h k = ground arith

  as_some : (v : Value) (c : OtpChallenge) → as_otp_challenge v ≡ some c → v ≡ Value.otp_challenge c
  as_some v c h = ground arith

  -- A verification succeeds only while the count of failures is below the limit, and only for the
  -- active challenge of the phone number, on its device, with its code.
  pub verify_otp_script_sound :
      (limits : OtpLimits) (q : OtpRequest) (s : State)
      → (verify_otp_script R limits q s).0 ≡ some OtpVerificationStatus.verified
      → ((n : ℕ) × (counter (get (otp_failure_key q.phone) s) ≡ some n) × (n < limits.max_failures))
        × IsOpen q.phone q.device_id q.challenge_id q.otp s
  unfolding verify_otp_script
  verify_otp_script_sound limits q s h =
      elim (Option-cases (counter (get (otp_failure_key q.phone) s))) [
        | inl e ↦ absurd (ground arith)
        | inr (n, counted) ↦ elim (Bool-cases (leb limits.max_failures n)) [
          | inl e ↦ absurd (ground arith)
          | inr low ↦ elim (Option-cases (get (otp_active_challenge_key q.phone) s)) [
            | inl e ↦ absurd (ground arith)
            | inr (active, fa) ↦
                elim (Option-cases (get (otp_challenge_key q.phone q.challenge_id) s)) [
                  | inl e ↦ absurd (ground arith)
                  | inr (value, fc) ↦ elim (Option-cases (as_otp_challenge value)) [
                    | inl e ↦ absurd (ground arith)
                    | inr (c, is_c) ↦ (
                      (n, counted, ground arith),
                      record {
                        active = active;
                        found_active = fa;
                        is_active = ground arith;
                        found =
                            fc
                            ∙ ap some (
                                as_some value c is_c
                                ∙ ap Value.otp_challenge
                                    (same_challenge q c (ground arith) (ground arith)));
                      },
                    )
                  ]
                ]
          ]
        ]
      ]

  pub locked_script :
      (limits : OtpLimits) (q : OtpRequest) (n : ℕ) (s : State)
      → counter (get (otp_failure_key q.phone) s) ≡ some n
      → limits.max_failures ≤ n
      → verify_otp_script R limits q s ≡ (some OtpVerificationStatus.too_many_attempts, s)
  unfolding verify_otp_script
  locked_script limits q n s counted high = ground arith

  pub wrong_script :
      (limits : OtpLimits) (phone device_id id code otp : Text) (n : ℕ) (s : State)
      → counter (get (otp_failure_key phone) s) ≡ some n
      → n < limits.max_failures
      → IsOpen phone device_id id code s
      → code ≢ otp
      → (verify_otp_script R limits (asking phone device_id id otp) s).1
        ≡ expire (otp_failure_key phone) limits.failure_window (incr (otp_failure_key phone) s)
  unfolding verify_otp_script
  wrong_script limits phone device_id id code otp n s counted low o other =
      ground (arith, counted, low, o.found_active, o.is_active, o.found, other)

  -- The code of an open challenge is accepted while the count of failures is below the limit, and
  -- the challenge and the count are then deleted.
  pub verify_otp_script_accepts :
      (limits : OtpLimits) (phone device_id id code : Text) (n : ℕ) (s : State)
      → counter (get (otp_failure_key phone) s) ≡ some n
      → n < limits.max_failures
      → IsOpen phone device_id id code s
      → verify_otp_script R limits (asking phone device_id id code) s ≡ (
        some OtpVerificationStatus.verified,
        del
            (otp_failure_key phone)
            (del (otp_active_challenge_key phone) (del (otp_challenge_key phone id) s)),
      )
  unfolding verify_otp_script
  verify_otp_script_accepts limits phone device_id id code n s counted low o =
      ground (arith, counted, low, o.found_active, o.is_active, o.found)

  still_absent : (k : Text) (t : ℕ) (s : State) → get k s ≡ none → get k (elapse t s) ≡ none
  still_absent k t s h = elim (R.get-elapse k t s) [ inl e ↦ e ∙ h | inr e ↦ e ]

  no_challenge_script :
      (limits : OtpLimits) (q : OtpRequest) (s : State)
      → 0 < limits.max_failures
      → get (otp_failure_key q.phone) s ≡ none
      → get (otp_active_challenge_key q.phone) s ≡ none
      → verify_otp_script R limits q s ≡ (some OtpVerificationStatus.no_active_challenge, s)
  unfolding verify_otp_script
  no_challenge_script limits q s some_max no_failures no_active =
      ground (arith, no_failures, no_active)

  accepted_state :
      (limits : OtpLimits) (q : OtpRequest) (s : State)
      → (verify_otp_script R limits q s).0 ≡ some OtpVerificationStatus.verified
      → (verify_otp_script R limits q s).1
        ≡ del (otp_failure_key q.phone) (
            del
              (otp_active_challenge_key q.phone)
              (del (otp_challenge_key q.phone q.challenge_id) s))
  accepted_state limits q s h =
      let ((n, counted, low), o) = verify_otp_script_sound limits q s h in
      ap (λ (p : Option OtpVerificationStatus × State). p.1)
        (verify_otp_script_accepts limits q.phone q.device_id q.challenge_id q.otp n s counted low
          o)

  -- After a verification that succeeds, and however much later, no request for the same phone
  -- number succeeds before a new challenge: it finds no active challenge, and changes nothing.
  pub verify_otp_script_once :
      (limits : OtpLimits) (q r : OtpRequest) (t : ℕ) (s : State)
      → 0 < limits.max_failures
      → (verify_otp_script R limits q s).0 ≡ some OtpVerificationStatus.verified
      → r.phone ≡ q.phone
      → verify_otp_script R limits r (elapse t (verify_otp_script R limits q s).1) ≡ (
        some OtpVerificationStatus.no_active_challenge,
        elapse t (verify_otp_script R limits q s).1,
      )
  verify_otp_script_once limits q r t s some_max h same =
      no_challenge_script limits r (elapse t (verify_otp_script R limits q s).1) some_max
        (gone (λ phone. otp_failure_key phone) (R.get-del (otp_failure_key q.phone) _))
        (gone (λ phone. otp_active_challenge_key phone)
          (R.get-del-other (otp_failure_key q.phone) (otp_active_challenge_key q.phone) _
              (failure≢active q.phone)
            ∙ R.get-del (otp_active_challenge_key q.phone) _))
    where
      deleted : State
      deleted = del (otp_failure_key q.phone) (
          del (otp_active_challenge_key q.phone) (del (otp_challenge_key q.phone q.challenge_id) s))

      gone :
          (key : Text → Text)
          → get (key q.phone) deleted ≡ none
          → get (key r.phone) (elapse t (verify_otp_script R limits q s).1) ≡ none
      gone key e =
          subst
            (λ (phone : Text). get (key phone) (elapse t (verify_otp_script R limits q s).1) ≡ none)
            (sym same)
            (subst (λ (x : State). get (key q.phone) (elapse t x) ≡ none)
              (sym (accepted_state limits q s h)) (still_absent (key q.phone) t deleted e))
