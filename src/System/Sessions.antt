-- ===== src/System/Sessions.antt =====
-- Devices and sessions in every run of the backend: a user and a device id keep one row at most, and
-- a session that has ended never comes back.
use kori.Common.{
  ◌≡◌, ◌≢◌, refl, sym, subst, Bool, true, false, Option, none, some, ℕ, ◌+◌, ◌≤◌, List, [], ◌∷◌,
  arith, if◌then◌else◌, inl, inr, ◌&&◌, Bool-cases, All,
}
use kori.Common.Result.{err}
use kori.Common.Table.{any, find, count}
use kori.Common.Table.Each.{Each-count, Each-none}
use kori.Common.Text.{Text, ◌==◌}
use kori.Schema.{Db, TrustDevice}
use kori.Store.{is_text}
use kori.Auth.Devices.{is_device_of, IsUniqueDevice}
use kori.Auth.Session.{
  Signer, Pauses, RefreshTokenPayload, refresh_tokens, session_invalid, has_session_id,
}
use kori.Auth.Session.Laws.{IsEnded, refresh_tokens_ended}
use kori.Transactions.Service.Laws.{perform-trust_devices}
use kori.System.{Run}
use kori.System.Effect.{Carries, Effect}
use kori.System.Laws.{Step-Effect}

same_device :
    {sid : Option Text} (u x : Text) (before after : TrustDevice)
    → Carries sid before after
    → is_device_of u x after ≡ is_device_of u x before
same_device u x before after c = rw (c.0, c.1)

none_counted : {A : Type 0} (q : A → Bool) (xs : List A) → any q xs ≡ false → count q xs ≡ 0
unfolding any count
none_counted q [] h = refl
none_counted q (x ∷ xs) h = ground (arith, none_counted q xs)

both_same : (a b u x : Text) → (a == u && b == x) ≡ true → (a ≡ u) × (b ≡ x)
both_same a b u x h = (ground arith, ground arith)

-- A device whose pair is new stands alone with it.
added_alone :
    (u x : Text) (d : TrustDevice) (ds : List TrustDevice)
    → any (is_device_of d.user_id d.device_id) ds ≡ false
    → count (is_device_of u x) ds ≤ 1
    → count (is_device_of u x) (d ∷ ds) ≤ 1
unfolding count
added_alone u x d ds new one = elim (Bool-cases (is_device_of u x d)) [
  | inl same ↦ alone same (
      subst (λ (v : Text). count (is_device_of v x) ds ≡ 0) (both_same _ _ u x same).0
        (subst (λ (v : Text). count (is_device_of d.user_id v) ds ≡ 0) (both_same _ _ u x same).1
          (none_counted _ ds new)))
  | inr other ↦ ground arith
]
  where
    alone :
        is_device_of u x d ≡ true
        → count (is_device_of u x) ds ≡ 0
        → (if is_device_of u x d then 1 else 0) + count (is_device_of u x) ds ≤ 1
    alone same zero = ground arith

Effect-IsUniqueDevice :
    {sid : Option Text} {db db' : Db} (u x : Text)
    → Effect sid db db'
    → IsUniqueDevice u x db
    → IsUniqueDevice u x db'
Effect-IsUniqueDevice {sid} {db} {db'} u x (Effect.kept k) one =
    subst (λ (n : ℕ). n ≤ 1)
      (sym (
        Each-count (Carries sid) (is_device_of u x) (same_device u x) db.trust_devices
          db'.trust_devices k.devices))
      one
Effect-IsUniqueDevice {sid} {db} u x (Effect.enrolled n) one =
    subst (λ ds. count (is_device_of u x) ds ≤ 1) (sym n.devices)
      (added_alone u x n.device db.trust_devices n.new_device one)
Effect-IsUniqueDevice {sid} {db} u x (Effect.opened o) one =
    subst (λ ds. count (is_device_of u x) ds ≤ 1) (sym o.devices)
      (added_alone u x o.device db.trust_devices o.new_device one)
Effect-IsUniqueDevice u x (Effect.moved rule s actor dto key reference db) one =
    subst (λ ds. count (is_device_of u x) ds ≤ 1)
      (sym (perform-trust_devices rule s actor dto key reference db)) one

-- Whatever requests are served, a user and a device id keep one row at most.
pub Run-IsUniqueDevice :
    {sids : List (Option Text)} {db db' : Db} (u x : Text)
    → Run sids db db'
    → IsUniqueDevice u x db
    → IsUniqueDevice u x db'
Run-IsUniqueDevice u x (Run.idle db) one = one
Run-IsUniqueDevice u x (Run.next run step) one =
    Effect-IsUniqueDevice u x (Step-Effect step) (Run-IsUniqueDevice u x run one)

-- The device of the token with its session.
abbrev has_session : RefreshTokenPayload → TrustDevice → Bool
has_session p d = is_device_of p.sub p.device_id d && has_session_id p d

no_session : (b : Bool) (o : Option Text) (t : Text) → o ≢ some t → (b && is_text o t) ≡ false
no_session b none t h = ground arith
no_session b (some s) t h = elim (Bool-cases (s == t)) [
  | inl same ↦ absurd (h (ground arith))
  | inr other ↦ ground arith
]

none≢some : (t : Text) → none ≢ some t
none≢some t h = cc

session_kept :
    {sid : Option Text} (p : RefreshTokenPayload) (before after : TrustDevice)
    → sid ≢ some p.sid
    → Carries sid before after
    → has_session p before ≡ false
    → has_session p after ≡ false
session_kept p before after other c h = elim c.2 [
  | inl same ↦ unchanged same
  | inr (inl gone) ↦ without gone (none≢some p.sid)
  | inr (inr new) ↦ without new other
]
  where
    unchanged : after.refresh_session_id ≡ before.refresh_session_id → has_session p after ≡ false
    unchanged same = rw (c.0, c.1, same) h

    without :
        {o : Option Text}
        → after.refresh_session_id ≡ o
        → o ≢ some p.sid
        → has_session p after ≡ false
    without e apart =
        no_session (is_device_of p.sub p.device_id after) after.refresh_session_id p.sid
          (subst (λ v. v ≢ some p.sid) (sym e) apart)

added_ended :
    (p : RefreshTokenPayload) (d : TrustDevice) (ds : List TrustDevice)
    → d.refresh_session_id ≢ some p.sid
    → find (has_session p) ds ≡ none
    → find (has_session p) (d ∷ ds) ≡ none
unfolding find
added_ended p d ds other ended =
    rw (no_session (is_device_of p.sub p.device_id d) d.refresh_session_id p.sid other) ended

Effect-IsEnded :
    {sid : Option Text} {db db' : Db} (p : RefreshTokenPayload)
    → sid ≢ some p.sid
    → Effect sid db db'
    → IsEnded p db
    → IsEnded p db'
Effect-IsEnded {sid} {db} {db'} p other (Effect.kept k) ended =
    Each-none (Carries sid) (has_session p) (λ x y. session_kept p x y other) db.trust_devices
      db'.trust_devices k.devices ended
Effect-IsEnded {sid} {db} p other (Effect.enrolled n) ended =
    subst (λ ds. find (has_session p) ds ≡ none) (sym n.devices)
      (added_ended p n.device db.trust_devices (subst (λ o. o ≢ some p.sid) (sym n.session) other)
        ended)
Effect-IsEnded {sid} {db} p other (Effect.opened o) ended =
    subst (λ ds. find (has_session p) ds ≡ none) (sym o.devices)
      (added_ended p o.device db.trust_devices (subst (λ o. o ≢ some p.sid) (sym o.session) other)
        ended)
Effect-IsEnded p other (Effect.moved rule s actor dto key reference db) ended =
    subst (λ ds. find (has_session p) ds ≡ none)
      (sym (perform-trust_devices rule s actor dto key reference db)) ended

-- A session that has ended stays ended, whatever requests are served, as long as no new session
-- takes its identifier.
pub Run-IsEnded :
    {sids : List (Option Text)} {db db' : Db} (p : RefreshTokenPayload)
    → All (λ sid. sid ≢ some p.sid) sids
    → Run sids db db'
    → IsEnded p db
    → IsEnded p db'
Run-IsEnded p others (Run.idle db) ended = ended
Run-IsEnded p others (Run.next run step) ended =
    Effect-IsEnded p others.0 (Step-Effect step) (Run-IsEnded p others.1 run ended)

-- A session that has ended has no further token: after any run of the backend, and whatever
-- other requests do while the refresh waits for the user, the refresh is refused.
pub ended_for_good :
    {sids more : List (Option Text)} {db later : Db} (p : RefreshTokenPayload) (jwt : Signer)
    (z : Pauses) (new_jti : Text) (now : ℕ)
    → IsEnded p db
    → All (λ sid. sid ≢ some p.sid) sids
    → All (λ sid. sid ≢ some p.sid) more
    → Run sids db later
    → Run more later (z.after_user later)
    → (refresh_tokens jwt z new_jti now p later).0 ≡ err session_invalid
ended_for_good {later = later} p jwt z new_jti now ended others these run pause =
    refresh_tokens_ended jwt z new_jti now p later
      (Run-IsEnded p these pause (Run-IsEnded p others run ended))
