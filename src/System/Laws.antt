-- ===== src/System/Laws.antt =====
-- What holds in every run of the backend: money is conserved, the tables stay sound, and a session
-- that has ended never comes back.
use kori.Common.{
  ◌≡◌, ◌≢◌, refl, sym, ap, subst, ◌∙◌, false, Option, List, [], ◌∷◌, arith, inl, inr, Bool-cases,
  All,
}
use kori.Common.Int.{ℤ, pos, ◌+ℤ◌, ◌≤ℤ◌, int_laws}
use kori.Common.Table.{any}
use kori.Common.Table.Each.{Each, Each-map}
use kori.Common.Table.Keys.{Distinct}
use kori.Common.Text.{Text, ◌==◌}
use kori.Schema.{Db, Wallet}
use kori.Store.Laws.{total}
use kori.Store.Balances.{ids, NonNegative}
use kori.Auth.Devices.{is_device_of}
use kori.Transactions.Service.Laws.{perform-total, perform-IsSound}
use kori.Transactions.Transfer.Safety.{IsSound, keys}
use kori.System.{Step, Run}
use kori.System.Effect.{
  SameMoney, Effect, establish_session-Kept, rotate-Kept, end_replayed-Kept, logout-Kept,
  revoke-Kept, upsert-Kept, upsert-Enrolled, reactivate-Kept, create_approval-Kept,
  renew_approval-Kept,
}
use kori.System.Openings.{
  suspend-Kept, deactive_wallet-Kept, active_wallet-Kept, provision_account-Effect,
  open_business-Effect,
}

pub Step-Effect : {sid : Option Text} {db db' : Db} → Step sid db db' → Effect sid db db'
Step-Effect (Step.transfer rule s actor dto key reference db) =
    Effect.moved rule s actor dto key reference db
Step-Effect (Step.suspension target db) = Effect.kept (suspend-Kept target db)
Step-Effect (Step.reactivation target db) = Effect.kept (reactivate-Kept target db)
Step-Effect (Step.deactivation reachable id db) = Effect.kept (deactive_wallet-Kept reachable id db)
Step-Effect (Step.activation reachable id db) = Effect.kept (active_wallet-Kept reachable id db)
Step-Effect (Step.login user_id device_id sid jti now db) =
    Effect.kept (establish_session-Kept user_id device_id sid jti now db)
Step-Effect (Step.rotation p jti now db) = Effect.kept (rotate-Kept p jti now db)
Step-Effect (Step.replay p db) = Effect.kept (end_replayed-Kept p db)
Step-Effect (Step.logout reachable p db) = Effect.kept (logout-Kept reachable p db)
Step-Effect (Step.revocation user record_id db) = Effect.kept (revoke-Kept user record_id db)
Step-Effect (Step.enrollment fresh user_id device_id db) =
    elim (Bool-cases (any (is_device_of user_id device_id) db.trust_devices)) [
      | inl there ↦ Effect.kept (upsert-Kept fresh user_id device_id db there)
      | inr absent ↦ Effect.enrolled (upsert-Enrolled fresh user_id device_id db absent)
    ]
Step-Effect (Step.registration jwt hash_pin fresh phone dto db) =
    provision_account-Effect jwt hash_pin fresh phone dto db
Step-Effect (Step.business jwt hash_pin fresh at phone dto db) =
    open_business-Effect jwt hash_pin fresh at phone dto db
Step-Effect (Step.approval a db) = Effect.kept (create_approval-Kept a db)
Step-Effect (Step.renewal id role admin now db) =
    Effect.kept (renew_approval-Kept id role admin now db)

-- Money.
Each-total : (ws vs : List Wallet) → Each SameMoney ws vs → total vs ≡ total ws
unfolding total
Each-total [] [] e = refl
Each-total [] (v ∷ vs) e = absurd e
Each-total (w ∷ ws) [] e = absurd e
Each-total (w ∷ ws) (v ∷ vs) (r, e) = rw (r.1, Each-total ws vs e)

none_added : (b : ℤ) (t : ℤ) → b ≡ pos 0 → b +ℤ t ≡ t
none_added b t h = rw h (omega int_laws)

Effect-total :
    {sid : Option Text} {db db' : Db} → Effect sid db db' → total db'.wallets ≡ total db.wallets
unfolding total
Effect-total {db = db} {db' = db'} (Effect.kept k) = Each-total db.wallets db'.wallets k.wallets
Effect-total (Effect.enrolled n) = ap total n.wallets
Effect-total {db = db} (Effect.opened o) =
    ap total o.wallets ∙ none_added o.wallet.balance (total db.wallets) o.empty
Effect-total (Effect.moved rule s actor dto key reference db) =
    perform-total rule s actor dto key reference db

-- The rows.
NonNegative-Each : (ws vs : List Wallet) → Each SameMoney ws vs → NonNegative ws → NonNegative vs
NonNegative-Each [] [] e h = tt
NonNegative-Each [] (v ∷ vs) e h = absurd e
NonNegative-Each (w ∷ ws) [] e h = absurd e
NonNegative-Each (w ∷ ws) (v ∷ vs) (r, e) (hw, h) =
    (subst (λ (b : ℤ). pos 0 ≤ℤ b) (sym r.1) hw, NonNegative-Each ws vs e h)

unused_id :
    (id : Text) (ws : List Wallet) → any (λ w. w.id == id) ws ≡ false → All (λ y. y ≢ id) (ids ws)
unfolding any
unused_id id [] h = tt
unused_id id (w ∷ ws) h = elim (Bool-cases (w.id == id)) [
  | inl same ↦ absurd (ground arith)
  | inr other ↦ (λ e. absurd (ground arith), unused_id id ws (ground arith))
]

Effect-IsSound : {sid : Option Text} {db db' : Db} → Effect sid db db' → IsSound db → IsSound db'
Effect-IsSound {db = db} {db' = db'} (Effect.kept k) s = record {
  distinct_wallets =
      subst Distinct
        (sym (
          Each-map SameMoney (λ (w : Wallet). w.id) (λ x y r. r.0) db.wallets db'.wallets
            k.wallets))
        s.distinct_wallets;
  non_negative = NonNegative-Each db.wallets db'.wallets k.wallets s.non_negative;
  distinct_keys = subst (λ ts. Distinct (keys ts)) (sym k.transactions) s.distinct_keys;
}
Effect-IsSound (Effect.enrolled n) s = record {
  distinct_wallets = subst (λ ws. Distinct (ids ws)) (sym n.wallets) s.distinct_wallets;
  non_negative = subst NonNegative (sym n.wallets) s.non_negative;
  distinct_keys = subst (λ ts. Distinct (keys ts)) (sym n.transactions) s.distinct_keys;
}
Effect-IsSound {db = db} (Effect.opened o) s = record {
  distinct_wallets =
      subst (λ ws. Distinct (ids ws)) (sym o.wallets)
        (unused_id o.wallet.id db.wallets o.new_wallet, s.distinct_wallets);
  non_negative =
      subst NonNegative (sym o.wallets)
        (subst (λ (b : ℤ). pos 0 ≤ℤ b) (sym o.empty) (omega int_laws), s.non_negative);
  distinct_keys = subst (λ ts. Distinct (keys ts)) (sym o.transactions) s.distinct_keys;
}
Effect-IsSound (Effect.moved rule s actor dto key reference db) sound =
    perform-IsSound rule s actor dto key reference db sound

-- Whatever requests are served, in any order and with any interleaving of their writes, the sum of
-- all balances stays the same.
pub Run-total :
    {sids : List (Option Text)} {db db' : Db}
    → Run sids db db'
    → total db'.wallets ≡ total db.wallets
Run-total (Run.idle db) = refl
Run-total (Run.next run step) = Effect-total (Step-Effect step) ∙ Run-total run

-- Whatever requests are served, wallet ids stay distinct, no balance becomes negative, and every
-- idempotency key keeps one transaction at most.
pub Run-IsSound :
    {sids : List (Option Text)} {db db' : Db} → Run sids db db' → IsSound db → IsSound db'
Run-IsSound (Run.idle db) sound = sound
Run-IsSound (Run.next run step) sound = Effect-IsSound (Step-Effect step) (Run-IsSound run sound)
