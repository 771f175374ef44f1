-- ===== src/Platform.antt =====
-- The administrators of the platform: backend/app/services/platform_user_service.py,
-- platform_admin_service.py and platform_admin_recovery_service.py.
pub mod Types
pub mod Users
pub mod Login
pub mod Recovery
pub mod Logins
pub mod Admins
