-- ===== src/Wallets/Freezing.antt =====
-- What freezing and unfreezing a wallet do to the tables, and to the transfers that follow.
use kori.Common.{
  ◌≡◌, refl, sym, ◌∙◌, ap, subst, Bool, true, false, Option, none, some, List, [], ◌∷◌, arith, ℕ,
  ◌<◌, if◌then◌else◌, Bool-cases, Option-cases, inl, inr, ◌&&◌, ◌⊎◌, not, is_some,
}
use kori.Common.Result.{ok, err}
use kori.Common.Table.{find, update_many, count, some_inj}
use kori.Common.Table.Keys.{
  Distinct, map-update_many, find-update_many-key, find-update_many-ended, find_refined,
}
use kori.Common.Text.{Text, ◌==◌}
use kori.Domain.Enums.{AccountStatus}
use kori.Domain.WalletId.{WalletId}
use kori.Mappers.Account.{to_prisma_status}
use kori.Schema.{Db, Wallet}
use kori.Store.{find_wallet, owner_has_status}
use kori.Store.Balances.{ids}
use kori.Transactions.Transfer.{
  Fresh, Transfer, execute_acid_transfer, participant_restricted, find_participant,
}
use kori.Transactions.Transfer.Refusals.{execute_acid_transfer_barred}
use kori.Wallets.{WalletOwnerResponse, find_active_wallet}
use kori.Wallets.Manage.{
  is_system, has_activity, set_activity, assert_manageable_wallet, deactive_wallet,
  find_wallet_of_active_owner, activate_in_transaction, active_wallet,
}

-- The tables after a change of activity.
abbrev pub with_activity : Text → Bool → Db → Db
with_activity id active db = record db {
  wallets =
      update_many (has_activity id (not active)) (λ w. record w { is_active = active }) db.wallets;
}

deactive_ok :
    (reachable : Bool) (id : WalletId) (db : Db) (r : WalletOwnerResponse) (db' : Db)
    → deactive_wallet reachable id db ≡ (ok r, db')
    → (count (has_activity id.id true) db.wallets ≡ 1) × (db' ≡ with_activity id.id false db)
unfolding deactive_wallet assert_manageable_wallet set_activity
deactive_ok reachable id db r db' h = elim (Option-cases (find_wallet id.id db)) [
  | inl missing ↦ absurd (ground arith)
  | inr (w, found) ↦ (ground arith, ground arith)
]

active_ok :
    (reachable : Bool) (id : WalletId) (db : Db) (r : WalletOwnerResponse) (db' : Db)
    → active_wallet reachable id db ≡ (ok r, db')
    → (count (has_activity id.id false) db.wallets ≡ 1)
      × (db' ≡ with_activity id.id true db)
      × ((w : Wallet) × (find_wallet_of_active_owner id.id db' ≡ some w))
unfolding active_wallet activate_in_transaction assert_manageable_wallet set_activity
active_ok reachable id db r db' h = elim (Option-cases (find_wallet id.id db)) [
  | inl missing ↦ absurd (ground arith)
  | inr (w, found) ↦
      elim (Option-cases (find_wallet_of_active_owner id.id (with_activity id.id true db))) [
        | inl missing ↦ absurd (ground arith)
        | inr (v, e) ↦ (ground arith, ground arith, (v, ground arith))
      ]
]

pos_one : {n : ℕ} → n ≡ 1 → 0 < n
pos_one h = omega arith

-- After a wallet has been frozen, a transfer from it or to it is refused as restricted, and changes
-- nothing.
pub deactive_wallet_bars_transfers :
    (reachable : Bool) (id : WalletId) (db : Db) (r : WalletOwnerResponse) (db' : Db)
    (fresh : Fresh) (t : Transfer)
    → Distinct (ids db.wallets)
    → deactive_wallet reachable id db ≡ (ok r, db')
    → (t.sender_wallet_id.id ≡ id.id) ⊎ (t.receiver_wallet_id.id ≡ id.id)
    → execute_acid_transfer fresh t db' ≡ (err participant_restricted, db')
unfolding find_active_wallet
deactive_wallet_bars_transfers reachable id db r db' fresh t d h side =
    let (one, after) = deactive_ok reachable id db r db' h in
    execute_acid_transfer_barred id.id db'
      (subst (λ (e : Db). find_active_wallet id.id e ≡ none) (sym after)
        (find-update_many-ended (λ (v : Wallet). v.id) id.id
          (λ v. v.is_active && (is_some v.user_id && not (is_system v))) (λ v. v.is_active)
          (λ v. record v { is_active = false }) (λ v. refl) (λ v. refl) db.wallets d (pos_one one)))
      fresh t side

find_narrow :
    (id : Text) (q g : Wallet → Bool) (ws : List Wallet) (w : Wallet)
    → find (λ v. v.id == id && g v) ws ≡ some w
    → q w ≡ true
    → find (λ v. v.id == id && (q v && g v)) ws ≡ some w
unfolding find
find_narrow id q g [] w h k = h
find_narrow id q g (v ∷ vs) w h k = elim (Bool-cases (v.id == id && g v)) [
  | inl e ↦ first (some_inj (rw e at h)) e
  | inr e ↦ rw (skip (v.id == id) (q v) (g v) e) (find_narrow id q g vs w (rw e at h) k)
]
  where
    skip : (a b c : Bool) → (a && c) ≡ false → (a && (b && c)) ≡ false
    skip a b c e = ground arith

    both : (a b c : Bool) → (a && c) ≡ true → b ≡ true → (a && (b && c)) ≡ true
    both a b c e h = ground arith

    first :
        v ≡ w
        → (v.id == id && g v) ≡ true
        → (if v.id == id && (q v && g v) then some v else find (λ u. u.id == id && (q u && g u)) vs)
          ≡ some w
    first same e =
        rw (both (v.id == id) (q v) (g v) e (subst (λ (u : Wallet). q u ≡ true) (sym same) k))
          (ap some same)

-- A wallet that has been unfrozen is active, its owner's account is active, and transfers find it
-- as a participant.
pub active_wallet_participates :
    (reachable : Bool) (id : WalletId) (db : Db) (r : WalletOwnerResponse) (db' : Db)
    → Distinct (ids db.wallets)
    → active_wallet reachable id db ≡ (ok r, db')
    → (w : Wallet) × (find_participant id.id db' ≡ some w)
unfolding find_wallet_of_active_owner find_participant
active_wallet_participates reachable id db r db' d h =
    let (one, after, (w, owned)) = active_ok reachable id db r db' h in
    let (v, _, kept) =
      find-update_many-key (λ (x : Wallet). x.id) id.id
        (λ x. not x.is_active && (is_some x.user_id && not (is_system x)))
        (λ x. record x { is_active = true }) (λ x. refl) db.wallets d (pos_one one) in
    let distinct_after =
      subst (λ (e : Db). Distinct (ids e.wallets)) (sym after)
        (subst Distinct
          (sym (
            map-update_many (λ (x : Wallet). x.id) (has_activity id.id false)
              (λ x. record x { is_active = true }) (λ x. refl) db.wallets))
          d) in
    let same =
      sym (
        subst
          (λ (e : Db). find (λ x. x.id == id.id) e.wallets ≡ some (record v { is_active = true }))
          (sym after) kept)
      ∙ find_refined (λ (x : Wallet). x.id) id.id
          (λ x. owner_has_status x (to_prisma_status AccountStatus.active) db') db'.wallets w
          distinct_after owned in
    (
      w,
      find_narrow id.id (λ x. x.is_active)
          (λ x. owner_has_status x (to_prisma_status AccountStatus.active) db') db'.wallets w owned
          (subst (λ (x : Wallet). x.is_active ≡ true) (some_inj same) refl),
    )

-- The row of the system's wallet, if it has the id.
abbrev pub find_system : Text → List Wallet → Option Wallet
find_system x ws = find (λ w. w.id == x && is_system w) ws

untouched :
    (active : Bool) (id x : Text) (ws : List Wallet)
    → find_system x
        (update_many (has_activity id (not active)) (λ w. record w { is_active = active }) ws)
      ≡ find_system x ws
unfolding find update_many
untouched active id x [] = refl
untouched active id x (w ∷ ws) = elim (Bool-cases (is_system w)) [
  | inl e ↦ ground (arith, untouched active id x ws)
  | inr e ↦ ground (arith, untouched active id x ws)
]

pub deactive_after :
    (reachable : Bool) (id : WalletId) (db : Db)
    → ((deactive_wallet reachable id db).1 ≡ db)
      ⊎ ((deactive_wallet reachable id db).1 ≡ with_activity id.id false db)
unfolding deactive_wallet assert_manageable_wallet set_activity
deactive_after reachable id db = elim (Option-cases (find_wallet id.id db)) [
  | inl missing ↦ ground arith
  | inr (w, found) ↦ ground arith
]

pub active_after :
    (reachable : Bool) (id : WalletId) (db : Db)
    → ((active_wallet reachable id db).1 ≡ db)
      ⊎ ((active_wallet reachable id db).1 ≡ with_activity id.id true db)
unfolding active_wallet activate_in_transaction assert_manageable_wallet set_activity
active_after reachable id db = elim (Option-cases (find_wallet id.id db)) [
  | inl missing ↦ ground arith
  | inr (w, found) ↦ ground arith
]

from_after :
    (active : Bool) (id x : Text) (db db' : Db)
    → (db' ≡ db) ⊎ (db' ≡ with_activity id active db)
    → find_system x db'.wallets ≡ find_system x db.wallets
from_after active id x db db' (inl e) = ap (λ (d : Db). find_system x d.wallets) e
from_after active id x db db' (inr e) =
    ap (λ (d : Db). find_system x d.wallets) e ∙ untouched active id x db.wallets

-- Neither freezing nor unfreezing a wallet, whichever way it ends, changes a wallet of the system.
pub manage_keeps_system :
    (reachable : Bool) (id : WalletId) (x : Text) (db : Db)
    → (find_system x (deactive_wallet reachable id db).1.wallets ≡ find_system x db.wallets)
      × (find_system x (active_wallet reachable id db).1.wallets ≡ find_system x db.wallets)
manage_keeps_system reachable id x db = (
  from_after false id.id x db (deactive_wallet reachable id db).1 (deactive_after reachable id db),
  from_after true id.id x db (active_wallet reachable id db).1 (active_after reachable id db),
)
