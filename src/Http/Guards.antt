-- ===== src/Http/Guards.antt =====
-- The guards of backend/src/modules/auth/guards that read the account: ActiveAccountGuard and
-- RolesGuard. `reachable` says whether the database answers.
pub mod Laws
use kori.Common.{
  Bool, true, false, Option, none, some, List, [], ◌∷◌, ◌++◌, not, same, if◌then◌else◌,
}
use kori.Common.Result.{
  Result, ok, err, Exception, ◌>>=◌, ◌>>◌, or_throw, throw_if, unauthorized, forbidden,
  internal_server_error,
}
use kori.Common.Text.{Text, text}
use kori.Domain.Enums.{AccountStatus, AccountStatus-discrete, Role, Role-discrete}
use kori.Mappers.Account.{RawAccountPayload, CurrentAccountPayload, to_current_account_payload}
use kori.Schema.{Db, User}
use kori.Store.{find_user}
use kori.Wallets.{query}
use kori.Auth.Session.{AccessTokenPayload}
use kori.Auth.Claims.{role_text}

abbrev pub account_restricted : Exception
account_restricted =
    forbidden (text "Your account is currently restricted. Please contact support.")

abbrev raw_account : User → RawAccountPayload
raw_account u = record { id = u.id; role = u.role; status = u.status }

-- The account that the request then carries.
unfoldable pub active_account_guard :
    Bool → Option AccessTokenPayload → Db → Result CurrentAccountPayload
unfolding find_user
active_account_guard reachable user db = do
  payload ← or_throw user (unauthorized (text "Authentication required"))
  found ←
      query reachable
        (internal_server_error (text "An error occurred while verifying account status."))
        (find_user payload.sub db)
  account ← or_throw found (unauthorized (text "User account not found."))
  throw_if
      (not (
        same AccountStatus-discrete (to_current_account_payload (raw_account account)).status
          AccountStatus.active))
      account_restricted
  ok (to_current_account_payload (raw_account account))

unfoldable pub includes : List Role → Role → Bool
includes [] role = false
includes (r ∷ rs) role = if same Role-discrete r role then true else includes rs role

-- `join(',')`.
unfoldable pub join_roles : List Role → Text
join_roles [] = []
join_roles (r ∷ []) = role_text r
join_roles (r ∷ s ∷ rs) = role_text r ++ (text "," ++ join_roles (s ∷ rs))

abbrev pub access_denied : List Role → Exception
access_denied roles =
    forbidden
      (text "Access denied. Requires role one of these roles " ++ (join_roles roles ++ text " "))

-- The roles are those of the route, if it declares any.
unfoldable pub roles_guard : Option (List Role) → Option CurrentAccountPayload → Result Bool
unfolding includes
roles_guard none account = ok true
roles_guard (some roles) none = err (forbidden (text "Current account authorization is missing."))
roles_guard (some roles) (some account) =
    if not (includes roles account.role) then err (access_denied roles) else ok true
