-- ===== src/Tests/Requests.antt =====
-- The theorems on idempotent requests and on runs of the backend, at the small database.
use kori.Common.{◌≡◌, refl, true, Option, none, some, ◌≤◌, ◌+◌, [], ◌∷◌, arith}
use kori.Common.Result.{Result, ok}
use kori.Common.Text.{Text, text}
use kori.Schema.{Db}
use kori.Store.{Action, pure}
use kori.Store.Laws.{total}
use kori.Auth.Redis.{Value}
use kori.Auth.Devices.{IsUniqueDevice}
use kori.Auth.Session.{logout_current_session}
use kori.Http.Idempotency.{Lifetimes, CacheAnswers, arrive, finish, intercept, idempotency_key}
use kori.Http.Idempotency.Laws.{Progress, Serve, Served, one_handler, intercept_replays}
use kori.System.{Step, Run}
use kori.System.Laws.{Run-total, Run-IsSound}
use kori.System.Sessions.{Run-IsUniqueDevice}
use kori.System.Bank.{BankRun, Run-refines}
use kori.System.Bank
use kori.Transactions.Service.{perform, send_money_rule}
use kori.Transactions.Transfer.Safety.{IsSound}
use kori.Tests.Data.{request_key, opened, bank, setting, actor, dto, alice}
use kori.Tests.Server.{table, empty}
use kori.Tests.Sessions.{with_device, token, one_row}
use kori.Tests.Transfers.{bank-IsSound}

abbrev life : Lifetimes
life = record { idempotency_ttl = 86400; processing_ttl = 30 }

abbrev responding : CacheAnswers
responding = record { get = true; lock = true; store = true; unlock = true }

abbrev key : Text
key = request_key

abbrev before : Progress table
before = record { running = 0; returned = 0; state = empty }

abbrev arrived : Progress table
arrived = record { running = 1; returned = 0; state = (arrive table life responding key empty).1 }

abbrev waiting : Progress table
waiting = record {
  running = 1;
  returned = 0;
  state = (arrive table life responding key arrived.state).1;
}

abbrev after_return : Progress table
after_return = record {
  running = 0;
  returned = 1;
  state = finish table life responding key (ok (text "{}")) waiting.state;
}

-- Two requests arrive, and the handler of the first returns.
two_requests : Served table life key before after_return
unfolding opened arrive
two_requests =
    Served.and_then
      (Served.and_then (Served.and_then (Served.start before) (Serve.arrives responding before))
        (Serve.arrives responding arrived))
      (Serve.returns responding (text "{}") waiting 0 refl)

one_handler_example : after_return.running + after_return.returned ≤ 1
one_handler_example =
    one_handler table life key empty after_return (omega arith) (omega arith) two_requests

abbrev pays_out : Action Text
pays_out = pure (text "{}")

absent : empty (idempotency_key key) ≡ none
absent = refl

abbrev first_call : Result Value × Db × (Text → Option Value)
first_call = intercept table life responding (some key) pays_out bank empty

abbrev tail_of_key : Text
tail_of_key = text "d1c5b2a-7f01-4c7e-9A10-0b52b7c23f1a"

-- The first call returns, and the second has its response.
intercept_replays_example :
    (first_call.0 ≡ ok (Value.response (text "{}")))
    × (first_call.1 ≡ bank)
    × (intercept table life responding (some key) pays_out with_device first_call.2
        ≡ (ok (Value.response (text "{}")), with_device, first_call.2))
unfolding text
intercept_replays_example =
    intercept_replays table life responding responding 57 tail_of_key (text "{}") pays_out pays_out
      bank bank with_device empty (omega arith) refl refl refl absent refl

abbrev paid : Db
paid = (perform send_money_rule setting actor dto request_key none with_device).1

abbrev left : Db
left = (logout_current_session true token paid).1

-- A transfer and a logout.
two_steps : Run (none ∷ none ∷ []) with_device left
two_steps =
    Run.next
      (Run.next (Run.idle with_device)
        (Step.transfer send_money_rule setting actor dto request_key none with_device))
      (Step.logout true token paid)

Run-total_example : total left.wallets ≡ total with_device.wallets
Run-total_example = Run-total two_steps

with_device-IsSound : IsSound with_device
with_device-IsSound = record {
  distinct_wallets = bank-IsSound.distinct_wallets;
  non_negative = bank-IsSound.non_negative;
  distinct_keys = bank-IsSound.distinct_keys;
}

Run-IsSound_example : IsSound left
Run-IsSound_example = Run-IsSound two_steps with_device-IsSound

Run-IsUniqueDevice_example : IsUniqueDevice alice (text "dev") left
Run-IsUniqueDevice_example =
    Run-IsUniqueDevice alice (text "dev") two_steps (one_row alice (text "dev"))

Run-refines_example : BankRun (Bank.bank with_device) (Bank.bank left)
Run-refines_example = Run-refines with_device-IsSound two_steps
