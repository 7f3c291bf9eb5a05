-- ===== src/Transactions/Transfer/Restrictions.antt =====
-- Which wallets are restricted, in terms of the rows, and that the transaction of a transfer
-- (`executeAcidTransfer` of backend/src/modules/transactions/transactions.service.ts) refuses them.
use kori.Common.{
  ◌≡◌, ◌≢◌, sym, ◌∙◌, ap, Bool, true, false, Option, none, some, List, [], ◌∷◌, map, arith, ◌⊎◌,
  inl, inr, Option-cases, Bool-cases, same, ◌&&◌,
}
use kori.Common.Result.{err}
use kori.Common.Table.{find, any, find_holds, some_inj}
use kori.Common.Table.Keys.{Distinct, find_refined}
use kori.Common.Text.{Text, ◌==◌}
use kori.Schema.{Db, User, Wallet}
use kori.Schema.Enums.{PrismaAccountStatus, PrismaAccountStatus-discrete}
use kori.Store.{find_wallet, find_user, owner_has_status, user_has_status}
use kori.Store.Balances.{ids}
use kori.Transactions.Transfer.{
  Transfer, Fresh, execute_acid_transfer, find_participant, is_participant, participant_restricted,
}
use kori.Transactions.Transfer.Safety.{participant_wallet}
use kori.Transactions.Transfer.Refusals.{execute_acid_transfer_refused}

-- A wallet that may not take part in a transfer: there is none, it is frozen, it has no owner, or
-- the account of its owner is not active.
pub data IsRestricted (id : Text) (db : Db) : Type 0 where
  absent : find_wallet id db ≡ none → IsRestricted id db
  frozen : (w : Wallet) → find_wallet id db ≡ some w → w.is_active ≡ false → IsRestricted id db
  unowned : (w : Wallet) → find_wallet id db ≡ some w → w.user_id ≡ none → IsRestricted id db
  shut :
      (w : Wallet) (owner : Text) (u : User)
      → find_wallet id db ≡ some w
      → w.user_id ≡ some owner
      → find_user owner db ≡ some u
      → u.status ≢ PrismaAccountStatus.active
      → IsRestricted id db

abbrev pub user_ids : List User → List Text
user_ids us = map (λ (u : User). u.id) us

any_found :
    {A : Type 0} (p : A → Bool) (xs : List A) → any p xs ≡ true → (x : A) × (find p xs ≡ some x)
unfolding any find
any_found p [] h = absurd (cc)
any_found p (x ∷ xs) h = elim (Bool-cases (p x)) [
  | inl met ↦ (x, ground arith)
  | inr other ↦ let (y, found) = any_found p xs (ground arith) in (y, ground arith)
]

-- The user with a status, where ids are distinct, is the user with the id.
user_status :
    (id : Text) (db : Db) (u : User)
    → Distinct (user_ids db.users)
    → find_user id db ≡ some u
    → user_has_status id PrismaAccountStatus.active db ≡ true
    → u.status ≡ PrismaAccountStatus.active
unfolding find_user user_has_status
user_status id db u distinct found active =
    let p = λ (v : User).
      v.id == id && same PrismaAccountStatus-discrete v.status PrismaAccountStatus.active in
    let (v, there) = any_found p db.users active in
    let one =
      find_refined (λ (x : User). x.id) id
        (λ x. same PrismaAccountStatus-discrete x.status PrismaAccountStatus.active) db.users v
        distinct there in
    ap (λ (x : User). x.status) (some_inj (sym found ∙ one)) ∙ met v (find_holds p db.users v there)
  where
    met :
        (x : User)
        → (x.id == id && same PrismaAccountStatus-discrete x.status PrismaAccountStatus.active)
          ≡ true
        → x.status ≡ PrismaAccountStatus.active
    met x h = ground arith

participant_parts :
    (id : Text) (db : Db) (w : Wallet)
    → find_participant id db ≡ some w
    → (w.is_active ≡ true) × (owner_has_status w PrismaAccountStatus.active db ≡ true)
unfolding find_participant
participant_parts id db w h =
    let holds = find_holds (is_participant id db) db.wallets w h in (ground arith, ground arith)

has_owner :
    (w : Wallet) (owner : Text) (db : Db)
    → w.user_id ≡ some owner
    → owner_has_status w PrismaAccountStatus.active db ≡ true
    → user_has_status owner PrismaAccountStatus.active db ≡ true
unfolding owner_has_status
has_owner w owner db e h = rw e at h

no_owner :
    (w : Wallet) (db : Db)
    → w.user_id ≡ none
    → owner_has_status w PrismaAccountStatus.active db ≡ true
    → ⊥
unfolding owner_has_status
no_owner w db e h = ground arith

-- A restricted wallet is none that the lock finds.
contradiction :
    (id : Text) (db : Db) (v : Wallet)
    → Distinct (ids db.wallets)
    → Distinct (user_ids db.users)
    → find_participant id db ≡ some v
    → IsRestricted id db
    → ⊥
contradiction id db v wallets users found (IsRestricted.absent none_there) =
    clash _ (participant_wallet id db v wallets found) none_there
  where
    clash : (o : Option Wallet) → o ≡ some v → o ≡ none → ⊥
    clash o e n = cc
contradiction id db v wallets users found (IsRestricted.frozen w there inactive) =
    let same_wallet = some_inj (sym (participant_wallet id db v wallets found) ∙ there) in
    apart_of (
      sym (participant_parts id db v found).0
      ∙ ap (λ (x : Wallet). x.is_active) same_wallet
      ∙ inactive)
  where
    apart_of : true ≡ false → ⊥
    apart_of h = cc
contradiction id db v wallets users found (IsRestricted.unowned w there empty) =
    let same_wallet = some_inj (sym (participant_wallet id db v wallets found) ∙ there) in
    no_owner v db (ap (λ (x : Wallet). x.user_id) same_wallet ∙ empty)
      (participant_parts id db v found).1
contradiction id db v wallets users found (IsRestricted.shut w owner u there owned known status) =
    let same_wallet = some_inj (sym (participant_wallet id db v wallets found) ∙ there) in
    status (
      user_status owner db u users known (
        has_owner v owner db (ap (λ (x : Wallet). x.user_id) same_wallet ∙ owned)
          (participant_parts id db v found).1))

no_participant :
    (id : Text) (db : Db)
    → Distinct (ids db.wallets)
    → Distinct (user_ids db.users)
    → IsRestricted id db
    → find_participant id db ≡ none
no_participant id db wallets users bar = elim (Option-cases (find_participant id db)) [
  | inl missing ↦ missing
  | inr (v, found) ↦ absurd (contradiction id db v wallets users found bar)
]

-- Where wallet ids and user ids are distinct, a transfer from or to a restricted wallet (one that is
-- not there, is frozen, has no owner, or has an owner whose account is not active) is refused as
-- restricted, and nothing changes.
pub execute_acid_transfer_restricted :
    (fresh : Fresh) (t : Transfer) (db : Db)
    → Distinct (ids db.wallets)
    → Distinct (user_ids db.users)
    → IsRestricted t.sender_wallet_id.id db ⊎ IsRestricted t.receiver_wallet_id.id db
    → execute_acid_transfer fresh t db ≡ (err participant_restricted, db)
execute_acid_transfer_restricted fresh t db wallets users (inl sender) =
    execute_acid_transfer_refused fresh t db
      (inl (no_participant t.sender_wallet_id.id db wallets users sender))
execute_acid_transfer_restricted fresh t db wallets users (inr receiver) =
    execute_acid_transfer_refused fresh t db
      (inr (inl (no_participant t.receiver_wallet_id.id db wallets users receiver)))
