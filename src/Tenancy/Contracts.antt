-- ===== src/Tenancy/Contracts.antt =====
-- backend/app/tenancy/contracts.py: the records of a workspace. Identifiers and tokens are texts and
-- times are whole numbers. The validators of time zones, currencies and locales need tables of
-- other packages and are left out.
use autonomous_agent_runtime.Prelude.{
  ℕ, String, ◌≡◌, refl, ◌↔◌, Bool, true, false, Option, nat_eq, if◌then◌else◌, Eq, index_beq_iff,
}

pub data Role : Type 0 where
  owner admin analyst viewer : Role

pub data MembershipStatus : Type 0 where
  active disabled : MembershipStatus

pub record Workspace : Type 0 where
  pub id : String
  pub name : String
  pub slug : String
  pub logo_ref : Option String
  pub is_active : Bool
  pub default_timezone : String
  pub default_locale : String
  pub default_currency : String
  pub fiscal_year_start_month : ℕ
  pub number_format : String
  pub date_format : String
  pub version : ℕ
  pub created_at : ℕ
  pub updated_at : ℕ

pub record Membership : Type 0 where
  pub id : String
  pub user_id : String
  pub workspace_id : String
  pub role : Role
  pub status : MembershipStatus
  pub invited_by : Option String
  pub joined_at : Option ℕ
  pub created_at : ℕ
  pub updated_at : ℕ

pub record Invitation : Type 0 where
  pub id : String
  pub workspace_id : String
  pub email : String
  pub role : Role
  pub token_hash : String
  pub invited_by : Option String
  pub created_at : ℕ
  pub expires_at : ℕ
  pub accepted_at : Option ℕ
  pub revoked_at : Option ℕ

abbrev pub role_index : Role → ℕ
role_index Role.owner = 0
role_index Role.admin = 1
role_index Role.analyst = 2
role_index Role.viewer = 3

abbrev role_at : ℕ → Role
role_at n =
    if nat_eq n 0
    then Role.owner
    else if nat_eq n 1
    then Role.admin
    else if nat_eq n 2
    then Role.analyst
    else Role.viewer

role_recover : (r : Role) → role_at (role_index r) ≡ r
role_recover Role.owner = refl
role_recover r = refl

pub role_beq_iff : (a b : Role) → (nat_eq (role_index a) (role_index b) ≡ true) ↔ (a ≡ b)
role_beq_iff = index_beq_iff role_index role_at role_recover

instance abbrev pub role_eq : Eq Role
role_eq = record { beq = λ a b. nat_eq (role_index a) (role_index b); beq_iff = role_beq_iff }

-- `status is MembershipStatus.ACTIVE`
abbrev pub is_active_status : MembershipStatus → Bool
is_active_status MembershipStatus.active = true
is_active_status MembershipStatus.disabled = false
