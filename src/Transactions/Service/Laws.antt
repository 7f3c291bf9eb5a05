-- ===== src/Transactions/Service/Laws.antt =====
-- The four operations as a whole: a request that is prepared has balanced amounts, and whatever a
-- call does the money is conserved and the tables stay sound and reconciled.
use mathlib.Core.Option
use kori.Common.{
  if◌then◌else◌, ◌≡◌, ◌≢◌, ◌<◌, ◌≤◌, Bool, Option-cases, inl, inr, refl, sym, ◌∙◌, ap, subst,
  Option, some, ℕ, ◌+◌, arith,
}
use kori.Common.Int.{◌≤ℤ◌, ℤ, pos, ◌+ℤ◌, ◌-ℤ◌}
use kori.Common.Text.{Text, ◌==◌}
use kori.Common.Result.{Result, ok, err, Exception}
use kori.Domain.Enums.{TransactionType, WalletType}
use kori.Domain.Money.{Money}
use kori.Domain.PhoneNumber.{PhoneNumber}
use kori.Domain.PhoneNumber
use kori.Domain.UserId.{UserId}
use kori.Domain.WalletId.{WalletId}
use kori.Domain.WalletId
use kori.Schema.{Db, Wallet}
use kori.Fees.Laws.{IsFee}
use kori.Mappers.Transaction
use kori.Store.Laws.{total}
use kori.Store.Balances.{balance_of}
use kori.Transactions.Amount.Laws.{amounts, calculate_transfer_math_sound}
use kori.Transactions.Amount.Decimal.{decimal, show_big_int}
use kori.Transactions.Eligibility.{assert_transfer_eligibility}
use kori.Transactions.Service.{Rule, Setting, TransferDto, build, prepare, perform}
use kori.Transactions.Transfer.{
  find_participant, lock_participants, Transfer, TransactionResultResponse, execute_acid_transfer,
}
use kori.Transactions.Transfer.Laws.{
  IsBalanced, execute_acid_transfer_atomic, execute_acid_transfer-total,
}
use kori.Transactions.Transfer.Inversion.{execute_ok}
use kori.Transactions.Transfer.Effect.{
  change, execute_acid_transfer-trust_devices, execute_acid_transfer-balance_of,
}
use kori.Transactions.Transfer.Ledger.{IsReconciled, execute_acid_transfer-IsReconciled}
use kori.Transactions.Transfer.Safety.{IsSound, HasAmounts, execute_acid_transfer-IsSound}
use kori.Transactions.Service.Prepared.{Prepared, prepare_ok, Prepared-amounts}
use kori.Wallets.{find_active_wallet, get_own_wallet_id, resolve_wallet_id_by_phone}

-- A property of the database that no transfer with sound amounts breaks holds after a call.
perform_keeps {ℓ} :
    (P : Db → Type ℓ) (rule : Rule) (s : Setting) (actor : UserId) (dto : TransferDto) (key : Text)
    (reference : Option Text) (db : Db)
    → P db
    → ((t : Transfer) → IsBalanced t → HasAmounts t → P (execute_acid_transfer s.fresh t db).1)
    → P (perform rule s actor dto key reference db).1
unfolding perform
perform_keeps P rule s actor dto key reference db start keep =
    go (prepare rule s actor dto key reference) refl
  where
    go :
        (r : Result Transfer)
        → prepare rule s actor dto key reference ≡ r
        → P (perform rule s actor dto key reference db).1
    go (err e) h = rw (h, perform) start
    go (ok t) h =
        let (b, a) = Prepared-amounts (prepare_ok rule s actor dto key reference t h) in
        rw (h, perform) (keep t b a)

-- Whatever a call of one of the four operations does, the sum of all balances stays the same.
pub perform-total :
    (rule : Rule) (s : Setting) (actor : UserId) (dto : TransferDto) (key : Text)
    (reference : Option Text) (db : Db)
    → total (perform rule s actor dto key reference db).1.wallets ≡ total db.wallets
perform-total rule s actor dto key reference db =
    perform_keeps (λ (d : Db). total d.wallets ≡ total db.wallets) rule s actor dto key reference db
      refl (λ t b a. execute_acid_transfer-total s.fresh t db b)

-- Whatever a call does, wallet ids stay distinct, balances stay non-negative, and every idempotency
-- key keeps one transaction at most.
pub perform-IsSound :
    (rule : Rule) (s : Setting) (actor : UserId) (dto : TransferDto) (key : Text)
    (reference : Option Text) (db : Db)
    → IsSound db
    → IsSound (perform rule s actor dto key reference db).1
perform-IsSound rule s actor dto key reference db sound =
    perform_keeps IsSound rule s actor dto key reference db sound
      (λ t b a. execute_acid_transfer-IsSound s.fresh t db a sound)

-- Whatever a call does, every balance stays the sum of its ledger entries.
pub perform-IsReconciled :
    (rule : Rule) (s : Setting) (actor : UserId) (dto : TransferDto) (key : Text)
    (reference : Option Text) (db : Db)
    → IsReconciled db
    → IsReconciled (perform rule s actor dto key reference db).1
perform-IsReconciled rule s actor dto key reference db rec =
    perform_keeps IsReconciled rule s actor dto key reference db rec
      (λ t b a. execute_acid_transfer-IsReconciled s.fresh t db rec)

-- A call that throws changes nothing.
pub perform_atomic :
    (rule : Rule) (s : Setting) (actor : UserId) (dto : TransferDto) (key : Text)
    (reference : Option Text) (db : Db) (e : Exception)
    → (perform rule s actor dto key reference db).0 ≡ err e
    → (perform rule s actor dto key reference db).1 ≡ db
unfolding perform
perform_atomic rule s actor dto key reference db e h =
    go (prepare rule s actor dto key reference) refl
  where
    go :
        (q : Result Transfer)
        → prepare rule s actor dto key reference ≡ q
        → (perform rule s actor dto key reference db).1 ≡ db
    go (err f) k = rw (k, perform)
    go (ok t) k =
        rw (k, perform) (execute_acid_transfer_atomic s.fresh t db e (rw (k, perform) at h))

-- A call leaves the trusted devices alone.
pub perform-trust_devices :
    (rule : Rule) (s : Setting) (actor : UserId) (dto : TransferDto) (key : Text)
    (reference : Option Text) (db : Db)
    → (perform rule s actor dto key reference db).1.trust_devices ≡ db.trust_devices
perform-trust_devices rule s actor dto key reference db =
    perform_keeps (λ (d : Db). d.trust_devices ≡ db.trust_devices) rule s actor dto key reference db
      refl (λ t b a. execute_acid_transfer-trust_devices s.fresh t db)

-- What a successful call has done, from the request to the balances.
pub record Receipt (rule : Rule) (s : Setting) (actor : UserId) (dto : TransferDto) (db : Db)
    (r : TransactionResultResponse) (db' : Db) : Type 0 where
  pub amount : ℕ
  pub fee : ℕ
  pub sender : WalletId
  pub receiver : WalletId
  pub system : WalletId
  pub number : PhoneNumber
  pub own : get_own_wallet_id s.reachable actor s.found ≡ ok sender
  pub parsed : PhoneNumber.from s.parse dto.phone ≡ ok number
  pub addressed : resolve_wallet_id_by_phone s.reachable number s.found ≡ ok receiver
  pub cached : s.cached_system_wallet_id ≡ some system
  pub asked : dto.amount_minor_units ≡ decimal amount
  pub is_fee : IsFee rule.type amount fee
  pub same_type : r.type ≡ rule.type
  pub same_amount : r.amount ≡ dto.amount_minor_units
  pub fee_shown : r.fee ≡ decimal fee
  pub balances :
      (x : Text)
      → balance_of x db'
        ≡ Option.map
            (λ (b : ℤ).
              b
              +ℤ ((if sender.id == x then pos 0 -ℤ pos (amount + fee) else pos 0)
                  +ℤ (if receiver.id == x then pos amount else pos 0)
                  +ℤ (if system.id == x then pos fee else pos 0)))
            (balance_of x db)

type_round_trip :
    (t : TransactionType) → Transaction.to_domain_type (Transaction.to_prisma_type t) ≡ t
type_round_trip t = ground arith

-- A receipt, and the three wallets that the transfer has locked.
pub record Payment (rule : Rule) (s : Setting) (actor : UserId) (dto : TransferDto) (db : Db)
    (r : TransactionResultResponse) (db' : Db) : Type 0 where
  pub receipt : Receipt rule s actor dto db r db'
  pub payer : Wallet
  pub payee : Wallet
  pub collector : Wallet
  pub positive : 0 < receipt.amount
  pub limit : receipt.amount ≤ 10000000
  pub apart : receipt.sender.id ≢ receipt.receiver.id
  pub payer_found : find_participant receipt.sender.id db ≡ some payer
  pub payee_found : find_participant receipt.receiver.id db ≡ some payee
  pub collector_found : find_active_wallet receipt.system.id db ≡ some collector
  pub funds : pos (receipt.amount + receipt.fee) ≤ℤ payer.balance

locked_rows :
    (t : Transfer) (db : Db) (w : Wallet)
    → lock_participants t db ≡ ok w
    → (find_participant t.sender_wallet_id.id db ≡ some w)
      × ((v : Wallet) × (find_participant t.receiver_wallet_id.id db ≡ some v)
          × ((u : Wallet) × (find_active_wallet t.system_wallet_id.id db ≡ some u)))
unfolding lock_participants
locked_rows t db w h = elim (Option-cases (find_participant t.receiver_wallet_id.id db)) [
  | inl none_there ↦ absurd (ground arith)
  | inr (v, there) ↦ elim (Option-cases (find_active_wallet t.system_wallet_id.id db)) [
    | inl none_active ↦ absurd (ground arith)
    | inr (u, active) ↦ (ground arith, (v, there, (u, active)))
  ]
]

eligible_apart :
    (reachable : Bool) (cached : Option WalletId) (sender receiver : WalletId)
    (sender_type receiver_type : WalletType) (sum : Money) (db : Db)
    → assert_transfer_eligibility reachable cached sender receiver sender_type receiver_type sum db
      ≡ ok tt
    → sender.id ≢ receiver.id
unfolding assert_transfer_eligibility WalletId.equals
eligible_apart reachable cached sender receiver sender_type receiver_type sum db h same =
    absurd (ground arith)

Executed-Payment :
    (rule : Rule) (s : Setting) (actor : UserId) (dto : TransferDto) (key : Text)
    (reference : Option Text) (t : Transfer) (db : Db) (r : TransactionResultResponse)
    → Prepared rule s actor dto key reference t
    → (execute_acid_transfer s.fresh t db).0 ≡ ok r
    → Payment rule s actor dto db r (execute_acid_transfer s.fresh t db).1
Executed-Payment rule s actor dto key reference t db r p h =
    let (n, fee, asked, low, high, same, is_fee, bound) =
      calculate_transfer_math_sound dto.amount_minor_units rule.type p.sums p.computed in
    let made : t ≡ build rule p.sender p.receiver p.system (amounts n fee) key reference =
      p.built ∙ ap (λ a. build rule p.sender p.receiver p.system a key reference) same in
    let e = execute_ok s.fresh t db r h in
    let (payer_there, (payee, payee_there, (collector, collector_there))) =
      locked_rows t db e.locked e.participants in
    record {
      receipt = record {
        amount = n;
        fee = fee;
        sender = p.sender;
        receiver = p.receiver;
        system = p.system;
        number = p.number;
        own = p.own;
        parsed = p.parsed;
        addressed = p.other;
        cached = p.cached;
        asked = asked;
        is_fee = is_fee;
        same_type =
            ap (λ (x : TransactionResultResponse). x.type) e.answer
            ∙ (type_round_trip t.type ∙ ap (λ (x : Transfer). x.type) made);
        same_amount =
            ap (λ (x : TransactionResultResponse). x.amount) e.answer
            ∙ (ap (λ (x : Transfer). show_big_int x.transfer_amount.amount_minor_units) made
                ∙ (show_pos n ∙ sym asked));
        fee_shown =
            ap (λ (x : TransactionResultResponse). x.fee) e.answer
            ∙ (ap (λ (x : Transfer). show_big_int x.fee_amount.amount_minor_units) made
                ∙ show_pos fee);
        balances = λ x.
            execute_acid_transfer-balance_of s.fresh t db r x h
            ∙ ap (λ (y : Transfer). Option.map (λ (b : ℤ). b +ℤ change y x) (balance_of x db)) made;
      };
      positive = low;
      limit = high;
      apart = eligible_apart _ _ _ _ _ _ _ _ p.eligible;
      payer = e.locked;
      payee = payee;
      collector = collector;
      payer_found =
          ap (λ (x : Transfer). find_participant x.sender_wallet_id.id db) (sym made) ∙ payer_there;
      payee_found =
          ap (λ (x : Transfer). find_participant x.receiver_wallet_id.id db) (sym made)
          ∙ payee_there;
      collector_found =
          ap (λ (x : Transfer). find_active_wallet x.system_wallet_id.id db) (sym made)
          ∙ collector_there;
      funds =
          subst (λ (x : Transfer). x.total_required_amount.amount_minor_units ≤ℤ e.locked.balance)
            made e.covered;
    }
  where
    show_pos : (m : ℕ) → show_big_int (pos m) ≡ decimal m
    show_pos m = unfold show_big_int in refl

pub perform-Payment :
    (rule : Rule) (s : Setting) (actor : UserId) (dto : TransferDto) (key : Text)
    (reference : Option Text) (db : Db) (r : TransactionResultResponse)
    → (perform rule s actor dto key reference db).0 ≡ ok r
    → Payment rule s actor dto db r (perform rule s actor dto key reference db).1
unfolding perform
perform-Payment rule s actor dto key reference db r h =
    go (prepare rule s actor dto key reference) refl
  where
    go :
        (q : Result Transfer)
        → prepare rule s actor dto key reference ≡ q
        → Payment rule s actor dto db r (perform rule s actor dto key reference db).1
    go (err e) k = absurd (clash k)
      where
        clash : prepare rule s actor dto key reference ≡ err e → ⊥
        clash k' = ground arith
    go (ok t) k =
        rw (k, perform)
          (Executed-Payment rule s actor dto key reference t db r
            (prepare_ok rule s actor dto key reference t k) (ground arith))

-- A successful call shows the amount of the request and the fee of its type, takes both from the
-- wallet of the actor, gives the amount to the wallet that the phone number of the request finds
-- and the fee to the cached system wallet, and changes no other balance.
pub perform-Receipt :
    (rule : Rule) (s : Setting) (actor : UserId) (dto : TransferDto) (key : Text)
    (reference : Option Text) (db : Db) (r : TransactionResultResponse)
    → (perform rule s actor dto key reference db).0 ≡ ok r
    → Receipt rule s actor dto db r (perform rule s actor dto key reference db).1
perform-Receipt rule s actor dto key reference db r h =
    (perform-Payment rule s actor dto key reference db r h).receipt
