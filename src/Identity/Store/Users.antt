-- ===== src/Identity/Store/Users.antt =====
-- InMemoryUserStore of backend/app/identity/store.py.
use autonomous_agent_runtime.Identity.Contracts.{User}
use autonomous_agent_runtime.Prelude.{
  ℕ, String, Bool, true, false, Option, none, some, List, if◌then◌else◌, any, find, string_instance,
  ◌==◌, nat_instance, lookup, put,
}

abbrev pub user_key : User → String
user_key u = u.id

abbrev pub get_by_id : String → List User → Option User
get_by_id = lookup user_key

abbrev pub get_by_email : String → List User → Option User
get_by_email email = find (λ u. u.email == email)

-- `create`, where `none` is the ValueError of an address that is taken.
unfoldable pub create : String → ℕ → String → String → String → List User → Option User × List User
create id now email display_name password_hash store =
    if any (λ u. u.email == email) store
    then (none, store)
    else let user : User = record {
      id = id;
      email = email;
      display_name = display_name;
      password_hash = password_hash;
      is_active = true;
      email_verified = false;
      pending_email = none;
      preferred_timezone = "UTC";
      preferred_locale = "en-US";
      profile_image_artifact_id = none;
      profile_image_workspace_id = none;
      created_at = now;
      updated_at = now;
      last_login_at = none;
    } in
      (some user, put user_key user store)

unfoldable pub update_password_hash : ℕ → String → String → List User → List User
update_password_hash now user_id password_hash store = elim (get_by_id user_id store) [
  | none ↦ store
  | some existing ↦
      put user_key (record existing { password_hash = password_hash; updated_at = now }) store
]

unfoldable pub mark_email_verified : ℕ → String → List User → List User
mark_email_verified now user_id store = elim (get_by_id user_id store) [
  | none ↦ store
  | some existing ↦ put user_key (record existing { email_verified = true; updated_at = now }) store
]

unfoldable pub record_login : ℕ → String → List User → List User
record_login now user_id store = elim (get_by_id user_id store) [
  | none ↦ store
  | some existing ↦ put user_key (record existing { last_login_at = some now }) store
]

unfoldable pub set_active : ℕ → String → Bool → List User → List User
set_active now user_id is_active store = elim (get_by_id user_id store) [
  | none ↦ store
  | some existing ↦ put user_key (record existing { is_active = is_active; updated_at = now }) store
]

-- The optional fields of `update_profile`.
pub record ProfileChanges : Type 0 where
  pub display_name : Option String
  pub preferred_timezone : Option String
  pub preferred_locale : Option String

abbrev supplied : Option String → String → String
supplied none old = old
supplied (some new) old = new

unfoldable pub update_profile : ℕ → String → ProfileChanges → List User → Option User × List User
update_profile now user_id c store = elim (get_by_id user_id store) [
  | none ↦ (none, store)
  | some existing ↦
      let updated = record existing {
        display_name = supplied c.display_name existing.display_name;
        preferred_timezone = supplied c.preferred_timezone existing.preferred_timezone;
        preferred_locale = supplied c.preferred_locale existing.preferred_locale;
        updated_at = now;
      } in
      (some updated, put user_key updated store)
]

unfoldable pub set_profile_image :
    ℕ → String → Option String → Option String → List User → Option User × List User
set_profile_image now user_id artifact_id workspace_id store = elim (get_by_id user_id store) [
  | none ↦ (none, store)
  | some existing ↦
      let updated = record existing {
        profile_image_artifact_id = artifact_id;
        profile_image_workspace_id = workspace_id;
        updated_at = now;
      } in
      (some updated, put user_key updated store)
]

unfoldable pub set_pending_email : ℕ → String → Option String → List User → List User
set_pending_email now user_id pending_email store = elim (get_by_id user_id store) [
  | none ↦ store
  | some existing ↦
      put user_key (record existing { pending_email = pending_email; updated_at = now }) store
]

unfoldable pub apply_email_change : ℕ → String → String → List User → Option User × List User
apply_email_change now user_id new_email store = elim (get_by_id user_id store) [
  | none ↦ (none, store)
  | some existing ↦
      let updated = record existing {
        email = new_email;
        pending_email = none;
        email_verified = true;
        updated_at = now;
      } in
      (some updated, put user_key updated store)
]
