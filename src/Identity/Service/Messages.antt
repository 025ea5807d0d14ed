-- ===== src/Identity/Service/Messages.antt =====
-- The e-mails of AuthService of backend/app/identity/service.py and the tokens that they carry.
use autonomous_agent_runtime.Identity.Contracts.{User, TokenPurpose, is_purpose}
use autonomous_agent_runtime.Identity.Store.Tokens.{create, revoke_active_for_user}
use autonomous_agent_runtime.Identity.Service.State.{Accounts, send}
use autonomous_agent_runtime.Tenancy.Service.Audit.{EmailMessage}
use autonomous_agent_runtime.Prelude.{ℕ, ◌+◌, String, ◌<>◌, if◌then◌else◌}

-- What the constructor keeps; `app_base_url` without its final slashes.
pub record AuthConfig : Type 0 where
  pub session_idle_ttl : ℕ
  pub session_absolute_ttl : ℕ
  pub password_reset_ttl : ℕ
  pub email_verification_ttl : ℕ
  pub app_base_url : String

-- A fresh identifier and a fresh token.
pub record FreshToken : Type 0 where
  pub id : String
  pub raw : String

unfoldable pub compose_message : String → User → TokenPurpose → String → EmailMessage
compose_message app_base_url user purpose raw_token =
    if is_purpose purpose TokenPurpose.password_reset
    then record {
      to = user.email;
      subject = "Reset your password";
      body =
          "We received a request to reset your password.\n\n" <> app_base_url
          <> "/reset-password?token=" <> raw_token
          <> "\n\nIf you did not request this, you can safely ignore this email.";
    }
    else record {
      to = user.email;
      subject = "Verify your email";
      body =
          "Confirm your email address to finish setting up your account.\n\n" <> app_base_url
          <> "/verify-email?token=" <> raw_token;
    }

unfoldable pub issue_and_send_token :
    (String → String) → AuthConfig → ℕ → FreshToken → User → TokenPurpose → Accounts → Accounts
issue_and_send_token hash_token config now fresh user purpose s =
    let ttl =
      if is_purpose purpose TokenPurpose.password_reset
      then config.password_reset_ttl
      else config.email_verification_ttl in
    let rest = revoke_active_for_user now user.id purpose s.tokens in
    send (compose_message config.app_base_url user purpose fresh.raw) (record s {
      tokens = (create fresh.id now user.id (hash_token fresh.raw) purpose (now + ttl) rest).1;
    })
