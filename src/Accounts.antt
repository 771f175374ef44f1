-- ===== src/Accounts.antt =====
-- The users of a tenant, their invitations, logins and password resets: the services
-- tenant_user_management_service.py, tenant_admin_invite_service.py,
-- tenant_account_activation_service.py, tenant_local_authentication_service.py and
-- tenant_password_reset_service.py of backend/app/services.
pub mod Types
pub mod Repository
pub mod Invites
pub mod Users
pub mod Activation
pub mod Login
pub mod Passwords
