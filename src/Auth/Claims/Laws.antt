-- ===== src/Auth/Claims/Laws.antt =====
-- What the parser of refresh token claims accepts, and that it takes the claims that a login signs.
use kori.Common.{
  ℕ, ◌≡◌, ◌≢◌, refl, ◌≤◌, [], ◌∷◌, ◌&&◌, not, eqb, leb, Bool, true, Option, none, some, ℕ_discrete,
  arith, Bool-cases, inl, inr,
}
use kori.Common.Text.{Text, text, Text-discrete, ◌==◌, length, trim}
use kori.Http.Value.{Unknown, property, Fields, object}
use kori.Auth.Session.{RefreshTokenPayload}
use kori.Auth.Claims.Uuid.{IsUuidV4, uuid-IsUuidV4, is_uuid-back}
use kori.Auth.Claims.{
  is_uuid_v4, is_device_id, is_non_empty_string, accepted, checked, claims, as_text, as_record,
  parse_refresh_token_claims, refresh_claims,
}

-- The identifiers are UUIDs of version 4, and the device id is a text of at most 128 units that is
-- not blank.
pub record IsClaims (p : RefreshTokenPayload) : Type 0 where
  pub device_id_length : length p.device_id ≤ 128
  pub device_id : trim p.device_id ≢ []
  pub sub : IsUuidV4 p.sub
  pub sid : IsUuidV4 p.sid
  pub jti : IsUuidV4 p.jti

-- The same, as the tests of the parser.
record Passes (p : RefreshTokenPayload) : Type 0 where
  pub device_id : is_device_id p.device_id ≡ true
  pub sub : is_uuid_v4 p.sub ≡ true
  pub sid : is_uuid_v4 p.sid ≡ true
  pub jti : is_uuid_v4 p.jti ≡ true

accepted_test :
    (test : Text → Bool) (o : Option Text) (t : Text) → accepted test o ≡ some t → test t ≡ true
accepted_test test none t h = absurd (cc)
accepted_test test (some s) t h = elim (Bool-cases (test s)) [
  | inl met ↦ ground arith
  | inr unmet ↦ absurd (ground arith)
]

claims_parts :
    (kind device_id sub sid jti : Option Text) (p : RefreshTokenPayload)
    → claims kind device_id sub sid jti ≡ some p
    → (device_id ≡ some p.device_id) × (sub ≡ some p.sub) × (sid ≡ some p.sid) × (jti ≡ some p.jti)
claims_parts none device_id sub sid jti p h = absurd (cc)
claims_parts (some k) none sub sid jti p h = absurd (cc)
claims_parts (some k) (some d) none sid jti p h = absurd (cc)
claims_parts (some k) (some d) (some u) none jti p h = absurd (cc)
claims_parts (some k) (some d) (some u) (some s) none p h = absurd (cc)
claims_parts (some k) (some d) (some u) (some s) (some j) p h =
    (ground arith, ground arith, ground arith, ground arith)

parse_refresh_token_claims-Passes :
    (v : Unknown) (p : RefreshTokenPayload) → parse_refresh_token_claims v ≡ some p → Passes p
unfolding parse_refresh_token_claims
parse_refresh_token_claims-Passes v p h = go (as_record v) h
  where
    go :
        (o : Option Fields)
        → Path
            (Option RefreshTokenPayload)
            (elim o [
              | none ↦ none
              | some fs ↦
                  claims
                    (checked (λ t. t == text "refresh") (text "tokenUse") fs)
                    (checked is_device_id (text "deviceId") fs)
                    (checked is_uuid_v4 (text "sub") fs)
                    (checked is_uuid_v4 (text "sid") fs)
                    (checked is_uuid_v4 (text "jti") fs)
            ])
            (some p)
        → Passes p
    go none q = absurd (cc)
    go (some fs) q =
        let (d, u, s, j) = claims_parts _ _ _ _ _ p q in
        record {
          device_id =
              accepted_test is_device_id (as_text (property (text "deviceId") fs)) p.device_id d;
          sub = accepted_test is_uuid_v4 (as_text (property (text "sub") fs)) p.sub u;
          sid = accepted_test is_uuid_v4 (as_text (property (text "sid") fs)) p.sid s;
          jti = accepted_test is_uuid_v4 (as_text (property (text "jti") fs)) p.jti j;
        }

Passes-IsClaims : (p : RefreshTokenPayload) → Passes p → IsClaims p
unfolding is_non_empty_string
Passes-IsClaims p passed = record {
  device_id_length = short p.device_id passed.device_id;
  device_id = λ blank. full (trim p.device_id) _ passed.device_id blank;
  sub = uuid-IsUuidV4 p.sub passed.sub;
  sid = uuid-IsUuidV4 p.sid passed.sid;
  jti = uuid-IsUuidV4 p.jti passed.jti;
}
  where
    short : (t : Text) → is_device_id t ≡ true → length t ≤ 128
    short t h = ground arith

    full : (t : Text) (b : Bool) → (not (eqb (length t) 0) && b) ≡ true → t ≢ []
    full [] b h e = absurd (cc)
    full (c ∷ t) b h e = cc

IsClaims-Passes : (p : RefreshTokenPayload) → IsClaims p → Passes p
unfolding is_non_empty_string
IsClaims-Passes p valid = record {
  device_id = known (trim p.device_id) (length p.device_id) valid.device_id valid.device_id_length;
  sub = is_uuid-back p.sub valid.sub;
  sid = is_uuid-back p.sid valid.sid;
  jti = is_uuid-back p.jti valid.jti;
}
  where
    known : (t : Text) (n : ℕ) → t ≢ [] → n ≤ 128 → (not (eqb (length t) 0) && leb n 128) ≡ true
    known [] n h k = absurd (h refl)
    known (c ∷ t) n h k = ground arith

pub parse_refresh_token_claims-IsClaims :
    (v : Unknown) (p : RefreshTokenPayload) → parse_refresh_token_claims v ≡ some p → IsClaims p
parse_refresh_token_claims-IsClaims v p h =
    Passes-IsClaims p (parse_refresh_token_claims-Passes v p h)

-- The parser takes the claims that a login signs, whatever the JWT library adds to them.
pub parse_signed :
    (p : RefreshTokenPayload) (added : Fields)
    → IsClaims p
    → parse_refresh_token_claims (object (refresh_claims p added)) ≡ some p
unfolding parse_refresh_token_claims property text Text-discrete ℕ_discrete
parse_signed p added valid =
    let ok_p = IsClaims-Passes p valid in rw (ok_p.device_id, ok_p.sub, ok_p.sid, ok_p.jti)

-- Claims that the parser takes from any payload are three UUIDs of version 4 and a device id of at
-- most 128 units that is not blank, and the parser takes the same claims from the payload of a
-- refresh token that is signed with them and verified, in which further fields, such as the times
-- that the JWT library adds, follow.
pub parse_refresh_token_claims_round_trip :
    (v : Unknown) (p : RefreshTokenPayload) (added : Fields)
    → parse_refresh_token_claims v ≡ some p
    → IsClaims p × (parse_refresh_token_claims (object (refresh_claims p added)) ≡ some p)
parse_refresh_token_claims_round_trip v p added h =
    let valid = parse_refresh_token_claims-IsClaims v p h in (valid, parse_signed p added valid)
