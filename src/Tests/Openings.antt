-- ===== src/Tests/Openings.antt =====
-- The theorems on the opening of accounts, at the small database.
use kori.Common.{◌≡◌, refl, true, Option, none, some, [], ◌∷◌}
use kori.Common.Result.{Result, ok, Exception}
use kori.Common.Text.{Text, text}
use kori.Domain.Enums.{WalletType}
use kori.Schema.{Db, BusinessApproval}
use kori.Schema.Enums.{PrismaRole}
use kori.Store.{find_user_by_phone}
use kori.Auth.Redis.{Value}
use kori.Auth.Proof.{
  registration_authorization_key, issue_registration_authorization,
  consume_registration_authorization, consume_authorization, consume_registration_script,
}
use kori.Auth.Session.{TokensResponse, get_tokens}
use kori.Auth.Register.{
  RegisterDto, RegisterFresh, create_user, create_device, new_user, provision_account, open_account,
  register_phone, registration_invalid,
}
use kori.Auth.Register.Laws.{
  IsFresh, with_account, proof_of, Registered, register_sound, register_succeeds,
}
use kori.Auth.Business.{open_business, business_registration_invalid}
use kori.Wallets.{create_wallet, create_personal_wallet}
use kori.Tests.Data.{opened, bank}
use kori.Tests.Server.{table, hash, empty}
use kori.Tests.Sessions.{signer}

abbrev new_phone : Text
new_phone = text "+8809"

abbrev request : RegisterDto
request = record {
  phone = new_phone;
  pin = text "4321";
  device_id = text "dev9";
  registration_token = text "tok";
}

abbrev rows : RegisterFresh
rows = record {
  user_id = text "dora";
  wallet_id = text "wd";
  device_row = text "d9";
  sid = text "s9";
  jti = text "j9";
  now = 5;
}

abbrev with_proof : Text → Option Value
with_proof =
    (issue_registration_authorization table hash true 900 (text "tok") new_phone (text "dev9")
      empty).1

abbrev no_message : Exception → Text
no_message e = []

abbrev register_new : Db → Result TokensResponse × Db × (Text → Option Value)
register_new db =
    register_phone table hash true registration_invalid
      (open_account signer hash no_message (λ d. d) rows) new_phone request db with_proof

abbrev tokens : TokensResponse
tokens =
    get_tokens signer (new_user rows hash PrismaRole.customer new_phone request) (text "dev9")
      (text "s9") (text "j9")

registered : register_new bank ≡ (ok tokens, (register_new bank).1, (register_new bank).2)
unfolding opened register_phone open_account provision_account create_user create_device
    create_personal_wallet create_wallet issue_registration_authorization
    consume_registration_authorization consume_authorization consume_registration_script
registered = refl

register_sound_example :
    (with_proof (registration_authorization_key new_phone)
      ≡ some (proof_of table hash new_phone request))
    × ((register_new bank).2 (registration_authorization_key new_phone) ≡ none)
    × (find_user_by_phone new_phone bank ≡ none)
    × IsFresh rows new_phone request bank
    × Registered signer hash rows new_phone request bank tokens (register_new bank).1
register_sound_example =
    register_sound table hash true signer hash no_message (λ d. d) rows new_phone request bank
      with_proof tokens (register_new bank).1 (register_new bank).2 registered

held :
    with_proof (registration_authorization_key new_phone)
    ≡ some (proof_of table hash new_phone request)
unfolding opened issue_registration_authorization
held = refl

free : find_user_by_phone new_phone bank ≡ none
unfolding opened
free = refl

new_rows : IsFresh rows new_phone request bank
unfolding opened
new_rows = record { users = refl; wallets = refl; devices = refl }

register_succeeds_example : register_new bank ≡ (
  ok tokens,
  with_account rows hash PrismaRole.customer WalletType.personal new_phone request bank,
  table.del (registration_authorization_key new_phone) with_proof,
)
register_succeeds_example =
    register_succeeds table hash signer hash no_message (λ d. d) rows new_phone request bank
      with_proof held free new_rows

abbrev approval : BusinessApproval
approval = record {
  id = text "a1";
  phone = new_phone;
  role = PrismaRole.agent;
  approved_by_id = text "admin";
  expires_at = 100;
  activated_at = none;
}

abbrev approved : Db
approved = record bank { business_approvals = approval ∷ [] }

abbrev register_agent :
    Db → (Text → Option Value) → Result TokensResponse × Db × (Text → Option Value)
register_agent db s =
    register_phone table hash true business_registration_invalid (open_business signer hash rows 6)
      new_phone request db s

abbrev agent_tokens : TokensResponse
agent_tokens =
    get_tokens signer (new_user rows hash PrismaRole.agent new_phone request) (text "dev9")
      (text "s9") (text "j9")
