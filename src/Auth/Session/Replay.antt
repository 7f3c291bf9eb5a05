-- ===== src/Auth/Session/Replay.antt =====
-- The detection of a refresh token that is used twice.
use kori.Common.{
  ◌≡◌, ◌≢◌, refl, sym, ◌∙◌, ap, subst, true, false, some, ℕ, List, ◌≤◌, arith, if◌then◌else◌, eqb,
}
use kori.Common.Result.{Result, ok, err}
use kori.Common.Table.{count-update_many_zero}
use kori.Common.Text.{Text}
use kori.Domain.Enums.{AccountStatus}
use kori.Mappers.Account.{to_domain_status}
use kori.Schema.{Db, User, TrustDevice}
use kori.Store.{find_user}
use kori.Auth.Devices.{
  is_device_of, IsUniqueDevice, update_unique_ends, count-update_many, unique_no, unique_yes,
}
use kori.Auth.Session.{
  RefreshTokenPayload, TokensResponse, Signer, Pauses, session_invalid, session_user, holds_token,
  is_replay, without_session, with_jti, end_replayed, find_device, refuse_refresh, refresh_tokens,
  has_session_id,
}
use kori.Auth.Session.Laws.{
  IsEnded, rotated, holders, refresh_step, refuse_refresh-err, refresh_tokens-Exchanged,
}

-- No other request runs after the rotation.
pub record IsQuiet (z : Pauses) : Type 0 where
  pub rotation : (d : Db) → z.after_rotation d ≡ d
  pub lookup : (d : Db) → z.after_lookup d ≡ d

active_user :
    (id : Text) (db : Db) (u : User)
    → find_user id db ≡ some u
    → to_domain_status u.status ≡ AccountStatus.active
    → session_user id db ≡ (ok u, db)
unfolding session_user
active_user id db u found active = ground arith

refused_after :
    (z : Pauses) (p : RefreshTokenPayload) (db : Db) (e : TrustDevice)
    → IsQuiet z
    → find_device p.sub p.device_id db ≡ some e
    → is_replay p e ≡ true
    → (refuse_refresh z p db).1 ≡ (end_replayed p db).1
unfolding refuse_refresh end_replayed
refused_after z p db e quiet found replay = ground (arith, quiet.rotation db, quiet.lookup db)

-- A token of the session that is not the current one is refused, and the session ends.
replay_ends :
    (jwt : Signer) (z : Pauses) (new_jti : Text) (now : ℕ) (p : RefreshTokenPayload) (db : Db)
    (u : User) (e : TrustDevice)
    → IsQuiet z
    → find_user p.sub db ≡ some u
    → to_domain_status u.status ≡ AccountStatus.active
    → IsUniqueDevice p.sub p.device_id (z.after_user db)
    → find_device p.sub p.device_id (z.after_user db) ≡ some e
    → holds_token (z.after_user db) p e ≡ false
    → is_replay p e ≡ true
    → ((refresh_tokens jwt z new_jti now p db).0 ≡ err session_invalid)
      × IsEnded p (refresh_tokens jwt z new_jti now p db).1
unfolding find_device end_replayed
replay_ends jwt z new_jti now p db u e quiet found active unique held other replay = (
  ap (λ (r : Result TokensResponse × Db). r.0) stepped ∙ refuse_refresh-err z p mid,
  subst (IsEnded p)
      (sym (
        ap (λ (r : Result TokensResponse × Db). r.1) stepped
        ∙ refused_after z p mid e quiet held replay))
      (update_unique_ends (is_device_of p.sub p.device_id) (is_replay p) (has_session_id p)
        without_session (λ x. refl) (λ x. refl) mid.trust_devices unique
        (unique_yes (is_device_of p.sub p.device_id) (is_replay p) mid.trust_devices e held
          replay)),
)
  where
    mid : Db
    mid = z.after_user db

    no_holder : holders p mid ≡ 0
    no_holder =
        unique_no (is_device_of p.sub p.device_id) (holds_token mid p) mid.trust_devices e unique
          held other

    unchanged : rotated p new_jti now mid ≡ mid
    unchanged =
        ap (λ (ds : List TrustDevice). record mid { trust_devices = ds })
          (count-update_many_zero _ (with_jti new_jti now) mid.trust_devices no_holder)

    not_one : {n : ℕ} {A : Type 0} (a b : A) → n ≡ 0 → (if eqb n 1 then a else b) ≡ b
    not_one a b h = ground arith

    stepped : refresh_tokens jwt z new_jti now p db ≡ refuse_refresh z p mid
    stepped =
        refresh_step jwt z new_jti now p db u (active_user p.sub db u found active)
        ∙ not_one _ _ no_holder
        ∙ ap (refuse_refresh z p) unchanged

replayed :
    (p : RefreshTokenPayload) (db db₁ : Db) (new_jti : Text) (d e : TrustDevice)
    → holds_token db p d ≡ true
    → e.refresh_session_id ≡ d.refresh_session_id
    → e.current_refresh_jti ≡ some new_jti
    → e.is_authorized ≡ d.is_authorized
    → new_jti ≢ p.jti
    → (is_replay p e ≡ true) × (holds_token db₁ p e ≡ false)
replayed p db db₁ new_jti d e holds same_sid same_jti same_auth fresh =
    (rw (same_sid, same_jti, same_auth) (ground arith), rw same_jti (ground arith))

-- A refresh token is exchanged once. After a refresh with it has succeeded, a further refresh with
-- it, even one that had found the user before, is refused, and ends the session of the device, so
-- that no token of the session is good any more.
pub refresh_tokens_replay :
    (jwt : Signer) (z y : Pauses) (new_jti other_jti : Text) (now later : ℕ)
    (p : RefreshTokenPayload) (db db₀ db₁ : Db) (r : TokensResponse) (u : User)
    → IsUniqueDevice p.sub p.device_id (z.after_user db)
    → refresh_tokens jwt z new_jti now p db ≡ (ok r, db₁)
    → new_jti ≢ p.jti
    → IsQuiet y
    → y.after_user db₀ ≡ db₁
    → find_user p.sub db₀ ≡ some u
    → to_domain_status u.status ≡ AccountStatus.active
    → ((refresh_tokens jwt y other_jti later p db₀).0 ≡ err session_invalid)
      × IsEnded p (refresh_tokens jwt y other_jti later p db₀).1
refresh_tokens_replay jwt z y new_jti other_jti now later p db db₀ db₁ r u unique h fresh quiet same
      found active =
    let done = refresh_tokens-Exchanged jwt z new_jti now p db r db₁ unique h in
    let (e, held, same_sid, same_jti, same_auth) = done.left in
    let (replay, other) =
      replayed p (z.after_user db) (y.after_user db₀) new_jti done.device e done.holds same_sid
        same_jti same_auth fresh in
    replay_ends jwt y other_jti later p db₀ u e quiet found active
      (subst (IsUniqueDevice p.sub p.device_id) (sym (same ∙ done.after)) still_unique)
      (subst (λ (d : Db). find_device p.sub p.device_id d ≡ some e) (sym same) held) other replay
  where
    still_unique : IsUniqueDevice p.sub p.device_id (rotated p new_jti now (z.after_user db))
    still_unique =
        subst (λ (n : ℕ). n ≤ 1)
          (sym (
            count-update_many (is_device_of p.sub p.device_id) _ (with_jti new_jti now) (λ x. refl)
              (z.after_user db).trust_devices))
          unique
