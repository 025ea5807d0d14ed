-- ===== src/Identity/Service/Profile.antt =====
-- AuthService of backend/app/identity/service.py: what a user asks for, by e-mail or in the profile.
use autonomous_agent_runtime.Identity.Contracts.{User, TokenPurpose}
use autonomous_agent_runtime.Identity.Store.Users
use autonomous_agent_runtime.Identity.Store.Users.{
  ProfileChanges, get_by_id, get_by_email, set_pending_email,
}
use autonomous_agent_runtime.Identity.Store.Tokens.{create, revoke_active_for_user}
use autonomous_agent_runtime.Identity.Service.State.{
  Accounts, Result, ok, err, send, record_audit, invalid_credentials, same_email,
  email_already_registered,
}
use autonomous_agent_runtime.Identity.Service.Messages.{
  AuthConfig, FreshToken, issue_and_send_token,
}
use autonomous_agent_runtime.Prelude.Json.{end, field, str}
use autonomous_agent_runtime.Prelude.{
  ℕ, ◌+◌, String, ◌<>◌, Bool, true, false, not, Option, none, some, List, if◌then◌else◌,
  string_instance, ◌==◌, nat_instance, is_some,
}

unfoldable pub forgot_password :
    (String → String)
    → (String → String)
    → AuthConfig
    → ℕ
    → FreshToken
    → String
    → Accounts
    → Accounts
forgot_password normalize hash_token config now fresh email s =
    elim (get_by_email (normalize email) s.users) [
      | none ↦ s
      | some user ↦
          if not user.is_active
          then s
          else issue_and_send_token hash_token config now fresh user TokenPurpose.password_reset s
    ]

unfoldable pub resend_email_verification :
    (String → String) → AuthConfig → ℕ → FreshToken → User → Accounts → Bool × Accounts
resend_email_verification hash_token config now fresh user s =
    if user.email_verified then (false, s) else (
      true,
      issue_and_send_token hash_token config now fresh user TokenPurpose.email_verification s,
    )

-- What a store's update gives back, where nothing is written when the account is gone.
abbrev changed_user : Option User × List User → Accounts → Result User × Accounts
changed_user (none, users) s = (err invalid_credentials, s)
changed_user (some user, users) s = (ok user, record s { users = users })

unfoldable pub update_profile : ℕ → String → ProfileChanges → Accounts → Result User × Accounts
update_profile now user_id changes s =
    changed_user (Users.update_profile now user_id changes s.users) s

unfoldable pub set_profile_image :
    ℕ → String → Option String → Option String → Accounts → Result User × Accounts
set_profile_image now user_id artifact_id workspace_id s =
    changed_user (Users.set_profile_image now user_id artifact_id workspace_id s.users) s

-- What `request_email_change` is given, with the fresh token.
pub record EmailChange : Type 0 where
  pub user_id : String
  pub new_email : String
  pub current_password : String
  pub token : FreshToken

-- The writes of `request_email_change`, after its guards.
unfoldable pub send_email_change :
    (String → String) → AuthConfig → ℕ → EmailChange → User → String → Accounts → Accounts
send_email_change hash_token config now c user normalized s =
    let rest = revoke_active_for_user now c.user_id TokenPurpose.email_change s.tokens in
    record_audit now c.user_id "identity_email_change_requested"
      (field "new_email" (str normalized) end)
      (send
        (record {
          to = normalized;
          subject = "Confirm your new email address";
          body =
              "Confirm that " <> normalized <> " should replace " <> user.email
              <> " as your sign-in email.\n\n" <> config.app_base_url
              <> "/confirm-email-change?token=" <> c.token.raw
              <> "\n\nIf you did not request this, you can safely ignore this email -- "
              <> "your address will not change.";
        })
        (record s {
          users = set_pending_email now c.user_id (some normalized) s.users;
          tokens =
              (create c.token.id now c.user_id (hash_token c.token.raw) TokenPurpose.email_change
                (now + config.email_verification_ttl) rest).1;
        }))

unfoldable pub request_email_change :
    (String → String)
    → (String → String)
    → (String → String → Bool)
    → AuthConfig
    → ℕ
    → EmailChange
    → Accounts
    → Result {0} Unit × Accounts
request_email_change normalize hash_token verify config now c s =
    elim (get_by_id c.user_id s.users) [
      | none ↦ (err invalid_credentials, s)
      | some user ↦
          let normalized = normalize c.new_email in
          if not (verify user.password_hash c.current_password)
          then (err invalid_credentials, s)
          else if normalized == user.email
          then (err same_email, s)
          else if is_some (get_by_email normalized s.users)
          then (err email_already_registered, s)
          else (ok tt, send_email_change hash_token config now c user normalized s)
    ]
