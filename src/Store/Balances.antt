-- ===== src/Store/Balances.antt =====
-- Balances, ledger entries and identifiers under an update of one balance.
use mathlib.Core.Option
use kori.Common.{
  ◌≡◌, refl, sym, ap, true, false, Option, none, some, List, [], ◌∷◌, map, arith, if◌then◌else◌,
  Bool-cases, inl, inr, All,
}
use kori.Common.Int.{ℤ, pos, ◌+ℤ◌, ◌-ℤ◌, ◌≤ℤ◌, int_laws}
use kori.Common.Text.{Text, ◌==◌}
use kori.Common.Table.{find, update}
use kori.Schema.{Db, Wallet, LedgerEntry}
use kori.Schema.Enums.{PrismaEntryType}
use kori.Store.Laws.{add_to}

add_zero : (x : ℤ) → x +ℤ pos 0 ≡ x
add_zero x = omega int_laws

map-add_zero : (o : Option ℤ) → Option.map (λ (b : ℤ). b +ℤ pos 0) o ≡ o
map-add_zero none = refl
map-add_zero (some b) = ap some (add_zero b)

same_text : (a b c : Text) → (a == b) ≡ true → (a == c) ≡ true → (b == c) ≡ true
same_text a b c h k = ground arith

other_text : (a b c : Text) → (a == b) ≡ true → (a == c) ≡ false → (b == c) ≡ false
other_text a b c h k = ground arith

not_text : (a b c : Text) → (a == b) ≡ false → (a == c) ≡ true → (b == c) ≡ false
not_text a b c h k = ground arith

-- The balance of the wallet with an id.
abbrev pub balance_in : Text → List Wallet → Option ℤ
balance_in id ws = Option.map (λ (w : Wallet). w.balance) (find (λ w. w.id == id) ws)

abbrev pub balance_of : Text → Db → Option ℤ
balance_of id db = balance_in id db.wallets

-- An update changes the balance of that wallet by the amount, and no other.
pub balance_in-add_to :
    (x id : Text) (delta : ℤ) (ws : List Wallet)
    → balance_in x (add_to id delta ws)
      ≡ Option.map (λ (b : ℤ). b +ℤ (if id == x then delta else pos 0)) (balance_in x ws)
unfolding find update
balance_in-add_to x id delta [] = refl
balance_in-add_to x id delta (w ∷ ws) = elim (Bool-cases (w.id == id)) [
  | inl here ↦ elim (Bool-cases (w.id == x)) [
    | inl hit ↦ rw (here, hit, same_text w.id id x here hit)
    | inr miss ↦
        rw (here, miss, other_text w.id id x here miss) (sym (map-add_zero (balance_in x ws)))
  ]
  | inr there ↦ elim (Bool-cases (w.id == x)) [
    | inl hit ↦ rw (there, hit, not_text w.id id x there hit) (ap some (sym (add_zero w.balance)))
    | inr miss ↦ rw (there, miss) (balance_in-add_to x id delta ws)
  ]
]

-- A debit counts down and a credit up.
abbrev pub signed : LedgerEntry → ℤ
signed e = elim e.type [
  | PrismaEntryType.debit ↦ pos 0 -ℤ e.amount
  | PrismaEntryType.credit ↦ e.amount
]

-- The sum of the entries of one wallet.
unfoldable pub entries_sum : Text → List LedgerEntry → ℤ
entries_sum id [] = pos 0
entries_sum id (e ∷ es) = (if e.wallet_id == id then signed e else pos 0) +ℤ entries_sum id es

abbrev pub ids : List Wallet → List Text
ids ws = map (λ (w : Wallet). w.id) ws

pub ids-add_to : (id : Text) (delta : ℤ) (ws : List Wallet) → ids (add_to id delta ws) ≡ ids ws
unfolding update
ids-add_to id delta [] = refl
ids-add_to id delta (w ∷ ws) = ground (arith, ids-add_to id delta ws)

-- No balance is negative.
abbrev pub NonNegative : List Wallet → Type 0
NonNegative ws = All (λ (w : Wallet). pos 0 ≤ℤ w.balance) ws

pub NonNegative-add_to :
    (id : Text) (delta : ℤ) (ws : List Wallet) (w : Wallet)
    → find (λ v. v.id == id) ws ≡ some w
    → pos 0 ≤ℤ w.balance +ℤ delta
    → NonNegative ws
    → NonNegative (add_to id delta ws)
unfolding find update
NonNegative-add_to id delta [] w f h n = n
NonNegative-add_to id delta (v ∷ vs) w f h n = ground (arith, NonNegative-add_to id delta vs w)
