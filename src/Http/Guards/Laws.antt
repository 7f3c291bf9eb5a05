-- ===== src/Http/Guards/Laws.antt =====
-- A suspension takes effect at the next request.
use kori.Common.{◌≡◌, true, some, map, arith}
use kori.Common.Result.{ok, err}
use kori.Common.Table.Keys.{Distinct}
use kori.Common.Text.{Text}
use kori.Domain.Enums.{Role}
use kori.Domain.UserId.{UserId}
use kori.Schema.{Db, User}
use kori.Store.{find_user}
use kori.Accounts.{AccountRestrictionResponse, suspend}
use kori.Accounts.Laws.{suspend-IsShut}
use kori.Schema.Enums.{PrismaAccountStatus}
use kori.Http.Guards.{active_account_guard, account_restricted}

refused :
    (id : Text) (role : Role) (db : Db) (u : User)
    → find_user id db ≡ some u
    → u.status ≡ PrismaAccountStatus.suspended
    → active_account_guard true (some (record { sub = id; role = role })) db
      ≡ err account_restricted
unfolding active_account_guard
refused id role db u found status = ground (arith, found, status)

-- Once an account is suspended, a request with an access token of that account is refused, whatever
-- role the token claims.
pub suspend_refuses_requests :
    (target : UserId) (db : Db) (r : AccountRestrictionResponse) (db' : Db) (role : Role)
    → Distinct (map (λ (u : User). u.id) db.users)
    → suspend target db ≡ (ok r, db')
    → active_account_guard true (some (record { sub = target.id; role = role })) db'
      ≡ err account_restricted
suspend_refuses_requests target db r db' role distinct done =
    let (same_response, ((u, found, status), quiet)) =
      suspend-IsShut target db r db' distinct done in
    refused target.id role db' u found status
