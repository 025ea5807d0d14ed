-- ===== src/Tests/Accounts.antt =====
-- A witness on accounts, their sessions and their tokens.
use autonomous_agent_runtime.Identity.Contracts.{User, Session, IdentityToken, TokenPurpose}
use autonomous_agent_runtime.Identity.Service.State.{Accounts, err, session_invalid, token_invalid}
use autonomous_agent_runtime.Identity.Service.Sessions.{validate_session}
use autonomous_agent_runtime.Identity.Service.Recovery.{
  reset_password, replace_password, consume_token, is_redeemable,
}
use autonomous_agent_runtime.Identity.Service.SignedOut.{reset_password-signs_out}
use autonomous_agent_runtime.Prelude.{String, ◌<>◌, ◌≡◌, refl, true, none, [], ◌∷◌}

abbrev digest : String → String
digest x = x <> "#"

abbrev session : Session
session = record {
  id = "s1";
  user_id = "ann";
  token_hash = "cookie#";
  csrf_token_hash = "csrf#";
  created_at = 0;
  expires_at = 1000;
  last_seen_at = 0;
  revoked_at = none;
  user_agent = none;
  ip_address = none;
}

abbrev token : IdentityToken
token = record {
  id = "t1";
  user_id = "ann";
  token_hash = "link#";
  purpose = TokenPurpose.password_reset;
  created_at = 0;
  expires_at = 100;
  used_at = none;
  revoked_at = none;
}

abbrev other_session : Session
other_session = record session { id = "s2"; user_id = "bob"; token_hash = "bobs#" }

abbrev user : User
user = record {
  id = "ann";
  email = "ann@acme.org";
  display_name = "Ann";
  password_hash = "old#";
  is_active = true;
  email_verified = true;
  pending_email = none;
  preferred_timezone = "UTC";
  preferred_locale = "en-US";
  profile_image_artifact_id = none;
  profile_image_workspace_id = none;
  created_at = 0;
  updated_at = 0;
  last_login_at = none;
}

abbrev accounts : Accounts
accounts = record {
  users = user ∷ [];
  sessions = other_session ∷ session ∷ [];
  tokens = token ∷ [];
  emails = [];
  audit = [];
}

abbrev after_reset : Accounts
after_reset = (reset_password digest digest 50 "link" "correct horse" accounts).1

reset_password-signs_out_example :
    (validate_session digest 60 30 "cookie" after_reset ≡ (err session_invalid, after_reset))
    × (reset_password digest digest 60 "link" "battery staple" after_reset
        ≡ (err token_invalid, after_reset))
unfolding reset_password replace_password consume_token is_redeemable
reset_password-signs_out_example =
    reset_password-signs_out digest digest 50 60 30 "link" "correct horse" "cookie" "battery staple"
      accounts token session (refl, tt) refl refl refl refl
