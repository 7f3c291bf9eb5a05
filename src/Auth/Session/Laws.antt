-- ===== src/Auth/Session/Laws.antt =====
-- What a refresh token is good for: it is exchanged while its session lasts and it is the latest,
-- a repeated one ends the session, and an ended session has no further token.
use kori.Common.{
  ◌≡◌, refl, sym, ◌∙◌, ap, Bool, true, Option, none, some, ℕ, List, [], ◌∷◌, arith, if◌then◌else◌,
  Bool-cases, Option-cases, inl, inr, ◌&&◌, ◌⊎◌, eqb, same,
}
use mathlib.Core.List.{Memᴰ}
use kori.Common.Result.{Result, ok, err, Exception}
use kori.Common.Table.{find, update_many, count, any}
use kori.Common.Text.{Text, ◌==◌}
use kori.Domain.Enums.{AccountStatus, AccountStatus-discrete}
use kori.Mappers.Account.{to_domain_status, to_domain_role}
use kori.Schema.{Db, User, TrustDevice}
use kori.Schema.Enums.{PrismaAccountStatus, PrismaAccountStatus-discrete}
use kori.Store.{find_user, user_has_status, is_text}
use kori.Auth.Devices.{is_device_of, IsUniqueDevice, update_unique}
use kori.Auth.Session.{
  RefreshTokenPayload, TokensResponse, Signer, Pauses, get_tokens, session_invalid, session_user,
  holds_token, with_jti, rotate, end_replayed, find_device, refuse_refresh, refresh_tokens,
  has_session_id,
}

-- The device of the token has no such session.
abbrev pub IsEnded : RefreshTokenPayload → Db → Type 0
IsEnded p db =
    find (λ d. is_device_of p.sub p.device_id d && has_session_id p d) db.trust_devices ≡ none

pub none-counted :
    (q r t : TrustDevice → Bool) (ds : List TrustDevice)
    → find (λ d. q d && r d) ds ≡ none
    → count (λ d. q d && (r d && t d)) ds ≡ 0
unfolding find count
none-counted q r t [] h = refl
none-counted q r t (d ∷ ds) h = ground (arith, none-counted q r t ds)

-- The user of a token is found, or the session is refused; nothing changes.
pub session_user_cases :
    (id : Text) (db : Db)
    → ((u : User) × (session_user id db ≡ (ok u, db))
        × (find_user id db ≡ some u)
        × (to_domain_status u.status ≡ AccountStatus.active))
      ⊎ (session_user id db ≡ (err session_invalid, db))
unfolding session_user
session_user_cases id db = elim (Option-cases (find_user id db)) [
  | inl missing ↦ inr (ground arith)
  | inr (u, found) ↦
      elim (Bool-cases
        (same AccountStatus-discrete (to_domain_status u.status) AccountStatus.active)) [
          | inl active ↦ inl (u, ground arith, found, ground arith)
          | inr other ↦ inr (ground arith)
        ]
]

pub refuse_refresh-err :
    (z : Pauses) (p : RefreshTokenPayload) (db : Db)
    → (refuse_refresh z p db).0 ≡ err session_invalid
unfolding refuse_refresh end_replayed
refuse_refresh-err z p db = ground arith

-- The state after the rotation, with the count of rows that it has changed.
abbrev pub rotated : RefreshTokenPayload → Text → ℕ → Db → Db
rotated p jti now db = record db {
  trust_devices =
      update_many (λ d. is_device_of p.sub p.device_id d && holds_token db p d) (with_jti jti now)
        db.trust_devices;
}

abbrev pub holders : RefreshTokenPayload → Db → ℕ
holders p db = count (λ d. is_device_of p.sub p.device_id d && holds_token db p d) db.trust_devices

pub refresh_step :
    (jwt : Signer) (z : Pauses) (new_jti : Text) (now : ℕ) (p : RefreshTokenPayload) (db : Db)
    (u : User)
    → session_user p.sub db ≡ (ok u, db)
    → refresh_tokens jwt z new_jti now p db ≡ (
        if eqb (holders p (z.after_user db)) 1
        then (
          ok (get_tokens jwt u p.device_id p.sid new_jti),
          rotated p new_jti now (z.after_user db),
        )
        else refuse_refresh z p (rotated p new_jti now (z.after_user db)))
unfolding refresh_tokens rotate
refresh_step jwt z new_jti now p db u h = ground arith

refresh_no_user :
    (jwt : Signer) (z : Pauses) (new_jti : Text) (now : ℕ) (p : RefreshTokenPayload) (db : Db)
    → session_user p.sub db ≡ (err session_invalid, db)
    → refresh_tokens jwt z new_jti now p db ≡ (err session_invalid, db)
unfolding refresh_tokens
refresh_no_user jwt z new_jti now p db h = ground arith

-- A session that has ended has no further token: whatever other requests do while it waits for the
-- user, a refresh of that session is refused.
pub refresh_tokens_ended :
    (jwt : Signer) (z : Pauses) (new_jti : Text) (now : ℕ) (p : RefreshTokenPayload) (db : Db)
    → IsEnded p (z.after_user db)
    → (refresh_tokens jwt z new_jti now p db).0 ≡ err session_invalid
refresh_tokens_ended jwt z new_jti now p db ended = elim (session_user_cases p.sub db) [
  | inr none_active ↦
      ap (λ (r : Result TokensResponse × Db). r.0)
        (refresh_no_user jwt z new_jti now p db none_active)
  | inl (u, active, found, status) ↦
      ap (λ (r : Result TokensResponse × Db). r.0) (refresh_step jwt z new_jti now p db u active)
      ∙ not_rotated _ _
          (none-counted (is_device_of p.sub p.device_id) (has_session_id p) _
            (z.after_user db).trust_devices ended)
          (refuse_refresh-err z p (rotated p new_jti now (z.after_user db)))
]
  where
    not_rotated :
        {n : ℕ} {r : Result TokensResponse} (a b : Result TokensResponse × Db)
        → n ≡ 0
        → b.0 ≡ r
        → (if eqb n 1 then a else b).0 ≡ r
    not_rotated a b e h = ground arith

-- What a refresh that succeeds has found and left, in terms of the rotation.
pub record Exchanged (jwt : Signer) (new_jti : Text) (now : ℕ) (p : RefreshTokenPayload)
    (db mid : Db) (r : TokensResponse) (db' : Db) : Type 0 where
  pub user : User
  pub device : TrustDevice
  pub found : find_user p.sub db ≡ some user
  pub is_active : to_domain_status user.status ≡ AccountStatus.active
  pub held : find_device p.sub p.device_id mid ≡ some device
  pub holds : holds_token mid p device ≡ true
  pub tokens : r ≡ get_tokens jwt user p.device_id p.sid new_jti
  pub after : db' ≡ rotated p new_jti now mid
  pub left :
      (e : TrustDevice) × (find_device p.sub p.device_id db' ≡ some e)
      × (e.refresh_session_id ≡ device.refresh_session_id)
      × (e.current_refresh_jti ≡ some new_jti)
      × (e.is_authorized ≡ device.is_authorized)

pub refresh_tokens-Exchanged :
    (jwt : Signer) (z : Pauses) (new_jti : Text) (now : ℕ) (p : RefreshTokenPayload) (db : Db)
    (r : TokensResponse) (db' : Db)
    → IsUniqueDevice p.sub p.device_id (z.after_user db)
    → refresh_tokens jwt z new_jti now p db ≡ (ok r, db')
    → Exchanged jwt new_jti now p db (z.after_user db) r db'
unfolding find_device
refresh_tokens-Exchanged jwt z new_jti now p db r db' unique h =
    elim (session_user_cases p.sub db) [
      | inr none_active ↦
          absurd (refused (sym (refresh_no_user jwt z new_jti now p db none_active) ∙ h))
      | inl (u, active, found, status) ↦
          let (one, same_r, same_db) =
            succeeded _ (refuse_refresh-err z p (rotated p new_jti now (z.after_user db)))
              (sym (refresh_step jwt z new_jti now p db u active) ∙ h) in
          let (d, held, holds, after) =
            update_unique (is_device_of p.sub p.device_id) (holds_token (z.after_user db) p)
              (with_jti new_jti now) (λ x. refl) (z.after_user db).trust_devices unique
              (omega arith) in
          record {
            user = u;
            device = d;
            found = found;
            is_active = status;
            held = held;
            holds = holds;
            tokens = same_r;
            after = same_db;
            left = (
              with_jti new_jti now d,
              ap (λ (e : Db). find (is_device_of p.sub p.device_id) e.trust_devices) same_db
                  ∙ after,
              refl,
              refl,
              refl,
            );
          }
    ]
  where
    refused :
        {e : Exception} {d d' : Db} {t : TokensResponse}
        → Path (Result TokensResponse × Db) (err e, d) (ok t, d')
        → ⊥
    refused q = cc

    succeeded :
        {n : ℕ} {t t' : TokensResponse} {d d' : Db} (b : Result TokensResponse × Db)
        → b.0 ≡ err session_invalid
        → Path (Result TokensResponse × Db) (if eqb n 1 then (ok t, d) else b) (ok t', d')
        → (n ≡ 1) × (t' ≡ t) × (d' ≡ d)
    succeeded b e q = ground arith

-- What a refresh that succeeds has found and left: an active account; an authorized device of an
-- active user, with the session and the token of the claims; the tokens signed for the user and the
-- same session; and the device with the same session and the new token.
pub record Refreshed (jwt : Signer) (new_jti : Text) (p : RefreshTokenPayload) (db mid : Db)
    (r : TokensResponse) (db' : Db) : Type 0 where
  pub user : User
  pub device : TrustDevice
  pub row : TrustDevice
  pub owner : User
  pub found : find_user p.sub db ≡ some user
  pub is_active : user.status ≡ PrismaAccountStatus.active
  pub held : find_device p.sub p.device_id mid ≡ some device
  pub sid : device.refresh_session_id ≡ some p.sid
  pub jti : device.current_refresh_jti ≡ some p.jti
  pub is_authorized : device.is_authorized ≡ true
  pub owned : Memᴰ owner mid.users
  pub owner_id : owner.id ≡ device.user_id
  pub owner_is_active : owner.status ≡ PrismaAccountStatus.active
  pub access :
      r.access_token ≡ jwt.sign_access (record { sub = user.id; role = to_domain_role user.role })
  pub refresh :
      r.refresh_token
      ≡ jwt.sign_refresh
          (record { sub = user.id; device_id = p.device_id; sid = p.sid; jti = new_jti })
  pub left : find_device p.sub p.device_id db' ≡ some row
  pub row_sid : row.refresh_session_id ≡ some p.sid
  pub row_jti : row.current_refresh_jti ≡ some new_jti
  pub row_is_authorized : row.is_authorized ≡ true
  pub users : db'.users ≡ mid.users
  pub wallets : db'.wallets ≡ mid.wallets

-- The rows of the active status.
pub active_row :
    (u : User)
    → to_domain_status u.status ≡ AccountStatus.active
    → u.status ≡ PrismaAccountStatus.active
active_row u h = go u.status h
  where
    go :
        (st : PrismaAccountStatus)
        → to_domain_status st ≡ AccountStatus.active
        → st ≡ PrismaAccountStatus.active
    go st h = ground arith

text_is : (o : Option Text) (t : Text) → is_text o t ≡ true → o ≡ some t
text_is none t h = absurd (cc)
text_is (some s) t h = ground arith

held_parts :
    (db : Db) (p : RefreshTokenPayload) (d : TrustDevice)
    → holds_token db p d ≡ true
    → (is_text d.refresh_session_id p.sid ≡ true)
      × (is_text d.current_refresh_jti p.jti ≡ true)
      × (d.is_authorized ≡ true)
      × (user_has_status d.user_id PrismaAccountStatus.active db ≡ true)
held_parts db p d h = (ground arith, ground arith, ground arith, ground arith)

-- A user with an id and a status is a row of the table.
user_row :
    (id : Text) (st : PrismaAccountStatus) (us : List User)
    → any (λ u. u.id == id && same PrismaAccountStatus-discrete u.status st) us ≡ true
    → (u : User) × Memᴰ u us × (u.id ≡ id) × (u.status ≡ st)
unfolding any
user_row id st [] h = absurd (cc)
user_row id st (u ∷ us) h =
    elim (Bool-cases (u.id == id && same PrismaAccountStatus-discrete u.status st)) [
      | inl met ↦ (u, Memᴰ.head refl, ground arith, ground arith)
      | inr other ↦
          let (v, there, same_id, same_status) = user_row id st us (ground arith) in
          (v, Memᴰ.tail there, same_id, same_status)
    ]

active_owner :
    (id : Text) (db : Db)
    → user_has_status id PrismaAccountStatus.active db ≡ true
    → (u : User) × Memᴰ u db.users × (u.id ≡ id) × (u.status ≡ PrismaAccountStatus.active)
unfolding user_has_status
active_owner id db h = user_row id PrismaAccountStatus.active db.users h

-- Where the user and the device id have one row at most: a refresh that succeeds has found an active
-- account, and, after what other requests have done
-- meanwhile, an authorized device of an active user with the session and the token of the claims.
-- The device then has the new token of the same session and is authorized still, the result is the
-- two tokens signed for it, and users and wallets stay.
pub refresh_tokens_sound :
    (jwt : Signer) (z : Pauses) (new_jti : Text) (now : ℕ) (p : RefreshTokenPayload) (db : Db)
    (r : TokensResponse) (db' : Db)
    → IsUniqueDevice p.sub p.device_id (z.after_user db)
    → refresh_tokens jwt z new_jti now p db ≡ (ok r, db')
    → Refreshed jwt new_jti p db (z.after_user db) r db'
refresh_tokens_sound jwt z new_jti now p db r db' unique h =
    let done = refresh_tokens-Exchanged jwt z new_jti now p db r db' unique h in
    let (session, token, authorized, active) =
      held_parts (z.after_user db) p done.device done.holds in
    let (owner, owned, owner_id, owner_is_active) =
      active_owner done.device.user_id (z.after_user db) active in
    let (row, left, same_session, new_token, same_authorized) = done.left in
    record {
      user = done.user;
      device = done.device;
      row = row;
      owner = owner;
      found = done.found;
      is_active = active_row done.user done.is_active;
      held = done.held;
      sid = text_is done.device.refresh_session_id p.sid session;
      jti = text_is done.device.current_refresh_jti p.jti token;
      is_authorized = authorized;
      owned = owned;
      owner_id = owner_id;
      owner_is_active = owner_is_active;
      access = ap (λ (x : TokensResponse). x.access_token) done.tokens;
      refresh = ap (λ (x : TokensResponse). x.refresh_token) done.tokens;
      left = left;
      row_sid = same_session ∙ text_is done.device.refresh_session_id p.sid session;
      row_jti = new_token;
      row_is_authorized = same_authorized ∙ authorized;
      users = ap (λ (e : Db). e.users) done.after;
      wallets = ap (λ (e : Db). e.wallets) done.after;
    }
