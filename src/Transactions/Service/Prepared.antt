-- ===== src/Transactions/Service/Prepared.antt =====
-- What a request has shown once it is prepared: `prepare` of each of the four operations.
use kori.Common.{◌≡◌, sym, ◌∙◌, ap, subst, Option, none, some, [], arith}
use kori.Common.Text.{Text}
use kori.Common.Result.{ok, >>=-ok, Exception, or_throw}
use kori.Domain.PhoneNumber.{PhoneNumber}
use kori.Domain.PhoneNumber
use kori.Domain.UserId.{UserId}
use kori.Domain.WalletId.{WalletId}
use kori.Transactions.Amount.{TransactionAmounts, calculate_transfer_math}
use kori.Transactions.Amount.Laws.{pos-add, calculate_transfer_math_sound}
use kori.Transactions.Eligibility.{assert_transfer_eligibility}
use kori.Transactions.Service.{Rule, Setting, TransferDto, build, prepare}
use kori.Transactions.Transfer.{Transfer}
use kori.Transactions.Transfer.Laws.{IsBalanced}
use kori.Transactions.Transfer.Safety.{HasAmounts}
use kori.Wallets.{get_own_wallet_id, resolve_wallet_id_by_phone}

-- What a prepared transfer was made from.
pub record Prepared (rule : Rule) (s : Setting) (actor : UserId) (dto : TransferDto) (key : Text)
    (reference : Option Text) (t : Transfer) : Type 0 where
  pub number : PhoneNumber
  pub sums : TransactionAmounts
  pub sender : WalletId
  pub receiver : WalletId
  pub system : WalletId
  pub parsed : PhoneNumber.from s.parse dto.phone ≡ ok number
  pub computed : calculate_transfer_math dto.amount_minor_units rule.type ≡ ok sums
  pub own : get_own_wallet_id s.reachable actor s.found ≡ ok sender
  pub other : resolve_wallet_id_by_phone s.reachable number s.found ≡ ok receiver
  pub eligible :
      assert_transfer_eligibility s.reachable s.cached_system_wallet_id sender receiver
        rule.sender_type rule.receiver_type sums.total_required_amount s.checked
      ≡ ok tt
  pub cached : s.cached_system_wallet_id ≡ some system
  pub built : t ≡ build rule sender receiver system sums key reference

cached_some :
    (o : Option WalletId) (e : Exception) (w : WalletId) → or_throw o e ≡ ok w → o ≡ some w
cached_some none e w h = cc
cached_some (some v) e w h = cc

ok_inj : {A : Type 0} {a b : A} → ok a ≡ ok b → a ≡ b
ok_inj h = cc

pub prepare_ok :
    (rule : Rule) (s : Setting) (actor : UserId) (dto : TransferDto) (key : Text)
    (reference : Option Text) (t : Transfer)
    → prepare rule s actor dto key reference ≡ ok t
    → Prepared rule s actor dto key reference t
unfolding prepare
prepare_ok rule s actor dto key reference t h =
    let (number, parsed, h₁) = >>=-ok (PhoneNumber.from s.parse dto.phone) _ t h in
    let (sums, computed, h₂) =
      >>=-ok (calculate_transfer_math dto.amount_minor_units rule.type) _ t h₁ in
    let (sender, own, h₃) = >>=-ok (get_own_wallet_id s.reachable actor s.found) _ t h₂ in
    let (receiver, other, h₄) =
      >>=-ok (resolve_wallet_id_by_phone s.reachable number s.found) _ t h₃ in
    let (_, eligible, h₅) =
      >>=-ok
        (assert_transfer_eligibility s.reachable s.cached_system_wallet_id sender receiver
          rule.sender_type rule.receiver_type sums.total_required_amount s.checked)
        _ t h₄ in
    let (system, found, h₆) =
      >>=-ok (or_throw s.cached_system_wallet_id (Exception.error [])) _ t h₅ in
    record {
      number = number;
      sums = sums;
      sender = sender;
      receiver = receiver;
      system = system;
      parsed = parsed;
      computed = computed;
      own = own;
      other = other;
      eligible = eligible;
      cached = cached_some s.cached_system_wallet_id (Exception.error []) system found;
      built = sym (ok_inj h₆);
    }

-- The amounts of a prepared transfer are those of the request.
pub Prepared-amounts :
    {rule : Rule} {s : Setting} {actor : UserId} {dto : TransferDto} {key : Text}
    {reference : Option Text} {t : Transfer}
    → Prepared rule s actor dto key reference t
    → IsBalanced t × HasAmounts t
Prepared-amounts {rule} {s} {actor} {dto} {key} {reference} {t} p =
    let (n, fee, _, low, high, same, _, bound) =
      calculate_transfer_math_sound dto.amount_minor_units rule.type p.sums p.computed in
    subst (λ (x : Transfer). IsBalanced x × HasAmounts x)
      (sym (p.built ∙ ap (λ a. build rule p.sender p.receiver p.system a key reference) same))
      (
        sym (pos-add n fee),
        record { transfer_valid = omega arith; fee_valid = omega arith; total_valid = omega arith },
      )
