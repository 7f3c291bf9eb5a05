-- ===== src/Accounts/Laws.antt =====
-- What a suspension and a reactivation do to the tables, and to the transfers that follow.
use kori.Common.{
  ◌≡◌, ◌≢◌, refl, sym, ◌∙◌, ap, subst, Bool, true, false, Option, none, some, List, [], ◌∷◌, map,
  arith, ℕ, ◌<◌, Bool-cases, Option-cases, inl, inr, ◌&&◌, ◌⊎◌, not, eqb, ◌||◌, is_some,
}
use kori.Common.Result.{ok, err}
use kori.Common.Table.{find, update_many, count, find_holds}
use kori.Common.Table.Keys.{Distinct, find-update_many-key, find-update_many-ended, find_refined}
use kori.Common.Text.{Text, ◌==◌}
use kori.Domain.Enums.{AccountStatus}
use kori.Domain.UserId.{UserId}
use kori.Schema.{Db, User, Wallet, TrustDevice}
use kori.Schema.Enums.{PrismaAccountStatus}
use kori.Transactions.Transfer.{Fresh, Transfer, execute_acid_transfer, participant_restricted}
use kori.Transactions.Transfer.Refusals.{execute_acid_transfer_barred}
use kori.Store.Balances.{ids}
use kori.Wallets.{find_active_wallet}
use kori.Wallets.Manage.{is_system}
use kori.Store.{is_text, find_user, find_wallet_of_user}
use kori.Accounts.{
  AccountRestrictionResponse, find_suspendable, is_wallet_of, freeze, is_restrictable, with_status,
  has_status, is_admin, has_ordinary_wallet, end_session, is_reactivable, reactivate,
  reactivate_user, suspend_in_transaction, suspend, freeze_wallet, restrict_user, end_sessions,
}

-- The tables after a suspension.
abbrev pub restricted_db : User → Wallet → Db → Db
restricted_db u w db = record db {
  users = update_many (is_restrictable u.id) (with_status AccountStatus.suspended) db.users;
  wallets = update_many (is_wallet_of w.id u.id) freeze db.wallets;
  trust_devices = update_many (λ d. d.user_id == u.id) end_session db.trust_devices;
}

pub record Suspended (target : UserId) (db : Db) (r : AccountRestrictionResponse) (db' : Db)
    : Type 0 where
  pub user : User
  pub wallet : Wallet
  pub found : find_suspendable target.id db ≡ some user
  pub owned : find_wallet_of_user user.id db ≡ some wallet
  pub frozen : count (is_wallet_of wallet.id user.id) db.wallets ≡ 1
  pub restricted : count (is_restrictable user.id) db.users ≡ 1
  pub after : db' ≡ restricted_db user wallet db
  pub response : r ≡ record { user_id = user.id; status = AccountStatus.suspended }

pub suspend_ok :
    (target : UserId) (db : Db) (r : AccountRestrictionResponse) (db' : Db)
    → suspend target db ≡ (ok r, db')
    → Suspended target db r db'
unfolding suspend suspend_in_transaction freeze_wallet restrict_user end_sessions
suspend_ok target db r db' h = elim (Option-cases (find_suspendable target.id db)) [
  | inl missing ↦ absurd (ground arith)
  | inr (u, found) ↦ elim (Option-cases (find_wallet_of_user u.id db)) [
    | inl missing ↦ absurd (ground arith)
    | inr (w, owned) ↦ record {
      user = u;
      wallet = w;
      found = found;
      owned = owned;
      frozen = ground arith;
      restricted = ground arith;
      after = ground arith;
      response = ground arith;
    }
  ]
]

-- The account is suspended, and no device of it holds a session.
abbrev pub has_session : TrustDevice → Bool
has_session d = is_some d.refresh_session_id || is_some d.current_refresh_jti

abbrev pub IsShut : Text → Db → Type 0
IsShut id db =
    ((u : User) × (find_user id db ≡ some u) × (u.status ≡ PrismaAccountStatus.suspended))
    × (find (λ d. d.user_id == id && has_session d) db.trust_devices ≡ none)

ended :
    (id : Text) (ds : List TrustDevice)
    → find
        (λ d. d.user_id == id && has_session d)
        (update_many (λ d. d.user_id == id) end_session ds)
      ≡ none
unfolding find update_many
ended id [] = refl
ended id (d ∷ ds) = ground (arith, ended id ds)

pos_one : {n : ℕ} → n ≡ 1 → 0 < n
pos_one h = omega arith

user_id_of : (id : Text) (db : Db) (u : User) → find_suspendable id db ≡ some u → u.id ≡ id
unfolding find_suspendable
user_id_of id db u h = elim (Bool-cases (u.id == id)) [
  | inl e ↦ ground arith
  | inr e ↦ absurd (not_found u db e (find_holds _ db.users u h))
]
  where
    not_found :
        (u : User) (db : Db)
        → (u.id == id) ≡ false
        → (u.id == id
            && (not (is_admin u)
                && (not (has_status AccountStatus.locked u) && has_ordinary_wallet u.id db)))
          ≢ true
    not_found u db e = rw e (ground arith)

shut :
    (u : User) (w : Wallet) (db : Db)
    → Distinct (map (λ (u : User). u.id) db.users)
    → count (is_restrictable u.id) db.users ≡ 1
    → IsShut u.id (restricted_db u w db)
unfolding find_user
shut u w db d one =
    let (v, _, kept) =
      find-update_many-key (λ (x : User). x.id) u.id
        (λ x.
          not (is_admin x)
          && (has_status AccountStatus.active x || has_status AccountStatus.suspended x))
        (with_status AccountStatus.suspended) (λ x. refl) db.users d (pos_one one) in
    ((with_status AccountStatus.suspended v, kept, refl), ended u.id db.trust_devices)

-- A successful suspension answers for the target, whose status is then suspended, and whose
-- devices hold no session.
pub suspend-IsShut :
    (target : UserId) (db : Db) (r : AccountRestrictionResponse) (db' : Db)
    → Distinct (map (λ (u : User). u.id) db.users)
    → suspend target db ≡ (ok r, db')
    → (r ≡ record { user_id = target.id; status = AccountStatus.suspended }) × IsShut target.id db'
suspend-IsShut target db r db' d h =
    let s = suspend_ok target db r db' h in
    let same_id = user_id_of target.id db s.user s.found in
    (
      s.response
          ∙ ap (λ (t : Text). record { user_id = t; status = AccountStatus.suspended }) same_id,
      subst (λ (t : Text). IsShut t db') same_id
          (subst (λ (d : Db). IsShut s.user.id d) (sym s.after)
            (shut s.user s.wallet db d s.restricted)),
    )

-- A suspension leaves no active wallet with the id.
frozen_wallet :
    (u : User) (w : Wallet) (db : Db)
    → Distinct (ids db.wallets)
    → count (is_wallet_of w.id u.id) db.wallets ≡ 1
    → find_active_wallet w.id (restricted_db u w db) ≡ none
unfolding find_active_wallet
frozen_wallet u w db d one =
    find-update_many-ended (λ (v : Wallet). v.id) w.id
      (λ v. is_text v.user_id u.id && not (is_system v)) (λ v. v.is_active) freeze (λ v. refl)
      (λ v. refl) db.wallets d (pos_one one)

same_wallet : {a b : Wallet} {o : Option Wallet} → o ≡ some a → o ≡ some b → a ≡ b
same_wallet h k = cc

suspend_frozen :
    (target : UserId) (db : Db) (r : AccountRestrictionResponse) (db' : Db) (w : Wallet)
    → Distinct (ids db.wallets)
    → suspend target db ≡ (ok r, db')
    → find_wallet_of_user target.id db ≡ some w
    → find_active_wallet w.id db' ≡ none
suspend_frozen target db r db' w d h owned =
    let s = suspend_ok target db r db' h in
    let same_id = user_id_of target.id db s.user s.found in
    let same_row =
      same_wallet (subst (λ (x : Text). find_wallet_of_user x db ≡ some s.wallet) same_id s.owned)
        owned in
    subst (λ (v : Wallet). find_active_wallet v.id db' ≡ none) same_row
      (subst (λ (e : Db). find_active_wallet s.wallet.id e ≡ none) (sym s.after)
        (frozen_wallet s.user s.wallet db d s.frozen))

-- After a successful suspension, a transfer from or to the wallet of the account is refused as
-- restricted, and changes nothing.
pub suspend_bars_transfers :
    (target : UserId) (db : Db) (r : AccountRestrictionResponse) (db' : Db) (w : Wallet)
    (fresh : Fresh) (t : Transfer)
    → Distinct (ids db.wallets)
    → suspend target db ≡ (ok r, db')
    → find_wallet_of_user target.id db ≡ some w
    → (t.sender_wallet_id.id ≡ w.id) ⊎ (t.receiver_wallet_id.id ≡ w.id)
    → execute_acid_transfer fresh t db' ≡ (err participant_restricted, db')
suspend_bars_transfers target db r db' w fresh t d h owned side =
    execute_acid_transfer_barred w.id db' (suspend_frozen target db r db' w d h owned) fresh t side

-- The tables after a reactivation.
abbrev reactivated_db : Text → Db → Db
reactivated_db id db = record db {
  users = update_many (is_reactivable id) (with_status AccountStatus.active) db.users;
}

reactivate_ok :
    (target : UserId) (db : Db) (r : AccountRestrictionResponse) (db' : Db)
    → reactivate target db ≡ (ok r, db')
    → (count (is_reactivable target.id) db.users ≡ 1) × (db' ≡ reactivated_db target.id db)
unfolding reactivate reactivate_user
reactivate_ok target db r db' h =
    elim (Bool-cases (eqb (count (is_reactivable target.id) db.users) 1)) [
      | inl e ↦ (ground arith, ground arith)
      | inr e ↦ absurd (ground arith)
    ]

was_suspended :
    (id : Text) (u : User) → is_reactivable id u ≡ true → u.status ≡ PrismaAccountStatus.suspended
was_suspended id u h = ground arith

-- A successful reactivation finds the account suspended and leaves it active, and changes neither
-- wallets nor devices.
pub reactivate_effect :
    (target : UserId) (db : Db) (r : AccountRestrictionResponse) (db' : Db)
    → Distinct (map (λ (u : User). u.id) db.users)
    → reactivate target db ≡ (ok r, db')
    → ((u : User) × (find_user target.id db ≡ some u)
        × (u.status ≡ PrismaAccountStatus.suspended)
        × (find_user target.id db' ≡ some (with_status AccountStatus.active u)))
      × (db'.wallets ≡ db.wallets)
      × (db'.trust_devices ≡ db.trust_devices)
unfolding find_user
reactivate_effect target db r db' d h =
    let (one, after) = reactivate_ok target db r db' h in
    let (u, found, kept) =
      find-update_many-key (λ (x : User). x.id) target.id
        (λ x. not (is_admin x) && has_status AccountStatus.suspended x)
        (with_status AccountStatus.active) (λ x. refl) db.users d (pos_one one) in
    (
      (
        u,
        find_refined (λ (x : User). x.id) target.id
            (λ x. not (is_admin x) && has_status AccountStatus.suspended x) db.users u d found,
        was_suspended target.id u (find_holds (is_reactivable target.id) db.users u found),
        subst (λ (e : Db). find_user target.id e ≡ some (with_status AccountStatus.active u))
            (sym after) kept,
      ),
      ap (λ (e : Db). e.wallets) after,
      ap (λ (e : Db). e.trust_devices) after,
    )

-- After a suspension and a reactivation, a transfer from or to the wallet of the account is still
-- refused as restricted: the wallet stays frozen.
pub reactivate_keeps_bar :
    (target : UserId) (db db₁ db₂ : Db) (r₁ r₂ : AccountRestrictionResponse) (w : Wallet)
    (fresh : Fresh) (t : Transfer)
    → Distinct (ids db.wallets)
    → find_wallet_of_user target.id db ≡ some w
    → suspend target db ≡ (ok r₁, db₁)
    → reactivate target db₁ ≡ (ok r₂, db₂)
    → (t.sender_wallet_id.id ≡ w.id) ⊎ (t.receiver_wallet_id.id ≡ w.id)
    → execute_acid_transfer fresh t db₂ ≡ (err participant_restricted, db₂)
unfolding find_active_wallet
reactivate_keeps_bar target db db₁ db₂ r₁ r₂ w fresh t d owned h k side =
    let (_, after) = reactivate_ok target db₁ r₂ db₂ k in
    execute_acid_transfer_barred w.id db₂
      (subst (λ (e : Db). find_active_wallet w.id e ≡ none) (sym after)
        (suspend_frozen target db r₁ db₁ w d h owned))
      fresh t side
