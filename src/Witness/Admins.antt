-- ===== src/Witness/Admins.antt =====
-- An example of the theorem on the platform's administrators.
use peka_saas.Common.{◌+◌, ◌==◌, false, true, none, some, [], ◌∷◌, arith, inl, refl}
use peka_saas.Common.Exec.{begin}
use peka_saas.Platform.Types.{PlatformAdmin, platform_admin, platform_readonly, Db, Env}
use peka_saas.Platform.Users.{PlatformUserUpdate, update}
use peka_saas.Platform.Admins.{IsManaged, updates, Change_keeps_admin}

abbrev env : Env
env = record {
  hash_token = λ t. t + 1;
  hash_password = λ p. p + 100;
  verify_password = λ p h. some (p + 100 == h);
  length_of = λ p. p;
  reset_link = λ t. t;
  commit_fails = false;
}

abbrev admin : PlatformAdmin
admin = record {
  id = 1;
  username = 2;
  email = 3;
  password_hash = some 111;
  full_name = 4;
  last_login_at = none;
  failed_login_attempts = 0;
  locked = false;
  is_active = true;
  is_super_admin = true;
  role = platform_admin;
}

abbrev tables : Db
tables = record { admins = admin ∷ []; invites = [] }

abbrev demotion : PlatformUserUpdate
demotion = record { email = 3; full_name = 4; role = platform_readonly }

Change_keeps_admin_example : IsManaged (update env 1 demotion 1 (begin tables)).1.committed
Change_keeps_admin_example =
    Change_keeps_admin env tables (update env 1 demotion 1 (begin tables)).1.committed
      (updates 1 demotion 1 (inl (refl, refl))) ((tt, tt), omega arith)
