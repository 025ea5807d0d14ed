-- ===== src/Identity/Contracts.antt =====
-- backend/app/identity/contracts.py: users, sessions and tokens. Identifiers and digests are texts,
-- times are whole numbers.
use autonomous_agent_runtime.Prelude.{ℕ, String, Bool, Option, nat_eq}

pub data TokenPurpose : Type 0 where
  password_reset email_verification email_change : TokenPurpose

pub record User : Type 0 where
  pub id : String
  pub email : String
  pub display_name : String
  pub password_hash : String
  pub is_active : Bool
  pub email_verified : Bool
  pub pending_email : Option String
  pub preferred_timezone : String
  pub preferred_locale : String
  pub profile_image_artifact_id : Option String
  pub profile_image_workspace_id : Option String
  pub created_at : ℕ
  pub updated_at : ℕ
  pub last_login_at : Option ℕ

pub record Session : Type 0 where
  pub id : String
  pub user_id : String
  pub token_hash : String
  pub csrf_token_hash : String
  pub created_at : ℕ
  pub expires_at : ℕ
  pub last_seen_at : ℕ
  pub revoked_at : Option ℕ
  pub user_agent : Option String
  pub ip_address : Option String

pub record IdentityToken : Type 0 where
  pub id : String
  pub user_id : String
  pub token_hash : String
  pub purpose : TokenPurpose
  pub created_at : ℕ
  pub expires_at : ℕ
  pub used_at : Option ℕ
  pub revoked_at : Option ℕ

abbrev purpose_index : TokenPurpose → ℕ
purpose_index TokenPurpose.password_reset = 0
purpose_index TokenPurpose.email_verification = 1
purpose_index TokenPurpose.email_change = 2

-- `a is b`
abbrev pub is_purpose : TokenPurpose → TokenPurpose → Bool
is_purpose a b = nat_eq (purpose_index a) (purpose_index b)
