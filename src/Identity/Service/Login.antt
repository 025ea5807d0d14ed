-- ===== src/Identity/Service/Login.antt =====
-- AuthService of backend/app/identity/service.py: registration and login.
use autonomous_agent_runtime.Identity.Contracts.{User, TokenPurpose}
use autonomous_agent_runtime.Identity.Store.Users
use autonomous_agent_runtime.Identity.Store.Users.{get_by_email, update_password_hash, record_login}
use autonomous_agent_runtime.Identity.Store.Sessions
use autonomous_agent_runtime.Identity.Service.State.{
  Accounts, Result, ok, err, weak_password, email_already_registered, value_error,
  invalid_credentials, account_disabled,
}
use autonomous_agent_runtime.Identity.Service.Messages.{
  AuthConfig, FreshToken, issue_and_send_token,
}
use autonomous_agent_runtime.Prelude.{
  ℕ, zero, suc, ◌+◌, String, Bool, not, Option, none, some, ltb, if◌then◌else◌, length, codes,
  is_some,
}

-- `value[:limit]`
abbrev truncate : ℕ → String → String
truncate zero text = String.[]
truncate (suc limit) String.[] = String.[]
truncate (suc limit) (String.◌∷◌ c text) = String.◌∷◌ c (truncate limit text)

-- What the passwords' hasher does.
pub record PasswordHasher : Type 0 where
  pub hash : String → String
  pub verify : String → String → Bool
  pub needs_rehash : String → Bool

-- What `register` is given, with the fresh identifiers of the user and of the token.
pub record Registration : Type 0 where
  pub id : String
  pub email : String
  pub password : String
  pub display_name : String
  pub token : FreshToken

unfoldable pub register :
    (String → String)
    → (String → String)
    → (String → String)
    → (String → String)
    → AuthConfig
    → ℕ
    → Registration
    → Accounts
    → Result User × Accounts
register normalize strip hash hash_token config now given s =
    let email = normalize given.email in
    if ltb (length (codes given.password)) 8
    then (err weak_password, s)
    else if is_some (get_by_email email s.users)
    then (err email_already_registered, s)
    else let created =
        Users.create given.id now email (strip given.display_name) (hash given.password) s.users in
      elim created.0 [
        | none ↦ (err value_error, s)
        | some user ↦ (
          ok user,
          issue_and_send_token hash_token config now given.token user
              TokenPurpose.email_verification (record s { users = created.1 }),
        )
      ]

-- What `login` is given, with the fresh identifier of the session and the fresh tokens.
pub record Credentials : Type 0 where
  pub email : String
  pub password : String
  pub user_agent : Option String
  pub ip_address : Option String
  pub session_id : String
  pub session_token : String
  pub csrf_token : String

abbrev truncated : Option String → Option String
truncated none = none
truncated (some value) = some (truncate 255 value)

-- `login` from the check of the account on; `user` is the record that was read.
unfoldable pub open_session :
    (String → String)
    → AuthConfig
    → ℕ
    → Credentials
    → User
    → Accounts
    → Result (User × String × String) × Accounts
open_session hash_token config now given user s =
    if not user.is_active then (err account_disabled, s) else (
      ok (record user { last_login_at = some now }, given.session_token, given.csrf_token),
      record s {
        sessions =
            (Sessions.create now
              (record {
                id = given.session_id;
                user_id = user.id;
                token_hash = hash_token given.session_token;
                csrf_token_hash = hash_token given.csrf_token;
                created_at = now;
                expires_at = now + config.session_absolute_ttl;
                last_seen_at = now;
                revoked_at = none;
                user_agent = truncated given.user_agent;
                ip_address = truncated given.ip_address;
              })
              s.sessions).1;
        users = record_login now user.id s.users;
      },
    )

unfoldable pub login :
    (String → String)
    → (String → String)
    → PasswordHasher
    → AuthConfig
    → ℕ
    → Credentials
    → Accounts
    → Result (User × String × String) × Accounts
login normalize hash_token passwords config now given s =
    elim (get_by_email (normalize given.email) s.users) [
      | none ↦ (err invalid_credentials, s)
      | some user ↦
          if not (passwords.verify user.password_hash given.password)
          then (err invalid_credentials, s)
          else open_session hash_token config now given user (
              if passwords.needs_rehash user.password_hash
              then record s {
                users = update_password_hash now user.id (passwords.hash given.password) s.users;
              }
              else s)
    ]
