-- ===== src/Accounts/Invites.antt =====
-- `TenantAdminInviteService` of backend/app/services/tenant_admin_invite_service.py.
use peka_saas.Common.{ℕ, ◌+◌, String, Option, none, some, leb, is_some, if◌then◌else◌}
use peka_saas.Common.Exec.{◌>>=◌, ◌>>◌, pure, raise, raise_if, query}
use peka_saas.Accounts.Types.{
  TenantAdminInvite, bootstrap, TenantAuditEvent, recipient_updated, Tenant,
}
use peka_saas.Accounts.Repository.{
  Env, Fresh, Action, value_error, save_or_rollback, get_latest_for_tenant,
  get_latest_unused_for_tenant, modify_invite, add_invite, add_audit, hours,
}

pub record TenantAdminInviteResponse : Type 0 where
  pub email : ℕ
  pub full_name : ℕ
  pub expires_at : ℕ
  pub used_at : Option ℕ
  pub status : String
  pub setup_link : Option ℕ

-- The platform administrator who acts.
pub record PlatformAdmin : Type 0 where
  pub id : ℕ
  pub username : ℕ

abbrev pub response : TenantAdminInvite → Option ℕ → ℕ → TenantAdminInviteResponse
response i setup_link now = record {
  email = i.email;
  full_name = i.full_name;
  expires_at = i.expires_at;
  used_at = i.used_at;
  status =
      if is_some i.used_at then "used" else if leb i.expires_at now then "expired" else "pending";
  setup_link = setup_link;
}

abbrev pub bootstrap_invite : Env → Fresh → ℕ → ℕ → ℕ → Option ℕ → TenantAdminInvite
bootstrap_invite env n tenant_id email full_name created_by = record {
  id = n.token_id;
  created_at = n.now;
  tenant_id = tenant_id;
  email = email;
  full_name = full_name;
  token_hash = env.hash_token n.raw_token;
  expires_at = n.now + hours 24;
  used_at = none;
  created_by_platform_admin_id = created_by;
  user_id = none;
  purpose = bootstrap;
}

-- The raw token is the one of `Fresh`.
abbrev pub create_invite : Env → Fresh → ℕ → ℕ → ℕ → Option ℕ → Action TenantAdminInvite
create_invite env n tenant_id email full_name created_by = do
  add_invite (bootstrap_invite env n tenant_id email full_name created_by)
  pure (bootstrap_invite env n tenant_id email full_name created_by)

unfoldable pub get_status : Tenant → ℕ → Action (Option TenantAdminInviteResponse)
get_status t now = do
  found ← query (get_latest_for_tenant t.id)
  pure (elim found [ none ↦ none | some i ↦ some (response i none now) ])

-- An assignment of `expires_at`.
abbrev pub expiring : ℕ → TenantAdminInvite → TenantAdminInvite
expiring now i = record i { expires_at = now }

-- The end of `regenerate`, with the recipient.
reissue : Env → Fresh → Tenant → Option ℕ → ℕ → ℕ → Action TenantAdminInviteResponse
reissue env n t created_by email full_name = do
  invite ← create_invite env n t.id email full_name created_by
  save_or_rollback env
  pure (response invite (some (env.setup_url t.slug n.raw_token t.subdomain)) n.now)

-- `regenerate`, by the latest unused invitation and the latest one.
renew :
    Env
    → Fresh
    → Tenant
    → Option ℕ
    → Option TenantAdminInvite
    → Option TenantAdminInvite
    → Action TenantAdminInviteResponse
unfolding reissue
renew env n t created_by none none =
    raise (value_error "No initial administrator invitation exists.")
renew env n t created_by none (some i) = reissue env n t created_by i.email i.full_name
renew env n t created_by (some previous) _ = do
  modify_invite previous.id (expiring n.now)
  reissue env n t created_by previous.email previous.full_name

unfoldable pub regenerate : Env → Fresh → Tenant → Option ℕ → Action TenantAdminInviteResponse
unfolding renew
regenerate env n t created_by = do
  previous ← query (get_latest_unused_for_tenant t.id)
  last ← query (get_latest_for_tenant t.id)
  renew env n t created_by previous last

abbrev recipient_event :
    Env → Tenant → PlatformAdmin → TenantAdminInvite → TenantAdminInvite → TenantAuditEvent
recipient_event env t actor previous invite = record {
  tenant_id = t.id;
  tenant_slug = t.slug;
  tenant_display_name = t.display_name;
  actor_platform_admin_id = some actor.id;
  actor_username = actor.username;
  action = "INITIAL_ADMIN_RECIPIENT_UPDATED";
  changes = recipient_updated previous.email invite.email previous.full_name invite.full_name;
  request_id = env.request_id;
}

-- The rest of `update_recipient`, by the latest invitation.
readdress :
    Env
    → Fresh
    → Tenant
    → ℕ
    → ℕ
    → PlatformAdmin
    → Option TenantAdminInvite
    → Action TenantAdminInviteResponse
readdress env n t email full_name actor none =
    raise (value_error "No initial administrator invitation exists.")
readdress env n t email full_name actor (some previous) = do
  raise_if (is_some previous.used_at)
      (value_error "The initial invitation has already been used; manage administrators instead.")
  modify_invite previous.id (expiring n.now)
  invite ←
      create_invite env n t.id (env.normalize_email email) (env.strip full_name) (some actor.id)
  add_audit (recipient_event env t actor previous invite)
  save_or_rollback env
  pure (response invite (some (env.setup_url t.slug n.raw_token t.subdomain)) n.now)

unfoldable pub update_recipient :
    Env → Fresh → Tenant → ℕ → ℕ → PlatformAdmin → Action TenantAdminInviteResponse
unfolding readdress
update_recipient env n t email full_name actor = do
  previous ← query (get_latest_for_tenant t.id)
  readdress env n t email full_name actor previous
