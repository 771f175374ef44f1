-- ===== src/Accounts/Types.antt =====
-- The rows of backend/app/models/tenant_user.py, tenant_admin_invite.py and tenant_audit_event.py.
-- UUIDs, texts, hashes and timestamps are natural numbers, with the empty text 0: the code copies
-- and compares them, and hands them to the functions of `Env`. A timestamp counts microseconds.
use peka_saas.Common.{ℕ, String, Bool, true, false, Option, none, some, ◌==◌, not}

pub data TenantUserAuthSource : Type 0 where
  local sso : TenantUserAuthSource

pub data TenantUserRole : Type 0 where
  tenant_admin tenant_user : TenantUserRole

pub record TenantUser : Type 0 where
  pub id : ℕ
  pub tenant_id : ℕ
  pub username : Option ℕ
  pub email : ℕ
  pub full_name : ℕ
  pub auth_source : TenantUserAuthSource
  pub password_hash : Option ℕ
  pub external_subject : Option ℕ
  pub is_active : Bool
  pub last_login_at : Option ℕ
  pub role : TenantUserRole
  pub failed_login_attempts : ℕ
  pub locked : Bool

pub record TenantPasswordResetToken : Type 0 where
  pub id : ℕ
  pub tenant_id : ℕ
  pub tenant_user_id : ℕ
  pub requested_by_platform_admin_id : Option ℕ
  pub token_hash : ℕ
  pub expires_at : ℕ
  pub used_at : Option ℕ

pub record DevelopmentEmail : Type 0 where
  pub tenant_id : ℕ
  pub recipient : ℕ
  pub subject : ℕ
  pub body_text : ℕ
  pub action_url : ℕ
  pub delivery_state : String

pub data TenantInvitePurpose : Type 0 where
  bootstrap user_setup password_reset : TenantInvitePurpose

pub record TenantAdminInvite : Type 0 where
  pub id : ℕ
  pub created_at : ℕ
  pub tenant_id : ℕ
  pub email : ℕ
  pub full_name : ℕ
  pub token_hash : ℕ
  pub expires_at : ℕ
  pub used_at : Option ℕ
  pub created_by_platform_admin_id : Option ℕ
  pub user_id : Option ℕ
  pub purpose : TenantInvitePurpose

-- The three objects that the services write to the column `changes`: the old and the new email
-- and name; the id and the email of a user and where the request came from; the id and the email.
pub data AuditChanges : Type 0 where
  recipient_updated : ℕ → ℕ → ℕ → ℕ → AuditChanges
  reset_requested : ℕ → ℕ → String → AuditChanges
  reset_completed : ℕ → ℕ → AuditChanges

pub record TenantAuditEvent : Type 0 where
  pub tenant_id : ℕ
  pub tenant_slug : ℕ
  pub tenant_display_name : ℕ
  pub actor_platform_admin_id : Option ℕ
  pub actor_username : ℕ
  pub action : String
  pub changes : AuditChanges
  pub request_id : Option ℕ

-- The columns of backend/app/models/tenant.py that these services read.
pub record Tenant : Type 0 where
  pub id : ℕ
  pub slug : ℕ
  pub display_name : ℕ
  pub subdomain : Option ℕ

-- `user.auth_source == LOCAL`
abbrev pub is_local : TenantUserAuthSource → Bool
is_local local = true
is_local sso = false

-- `role == TENANT_ADMIN`
abbrev pub is_admin : TenantUserRole → Bool
is_admin tenant_admin = true
is_admin tenant_user = false

unfoldable pub same_purpose : TenantInvitePurpose → TenantInvitePurpose → Bool
same_purpose bootstrap bootstrap = true
same_purpose user_setup user_setup = true
same_purpose password_reset password_reset = true
same_purpose _ _ = false

-- The truth of a text that may be None: neither None nor empty.
abbrev pub has_text : Option ℕ → Bool
has_text none = false
has_text (some text) = not (text == 0)
