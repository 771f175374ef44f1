-- ===== src/Tenancy/Registry.antt =====
-- `TenantRegistry` of backend/app/core/tenant_registry.py. Its two dictionaries are functions of the
-- lower-case key; the lock makes a call atomic. The empty text is 0.
pub mod Consistent
use peka_saas.Common.{ℕ, Bool, true, false, Option, none, some, ◌==◌, not, if◌then◌else◌}

pub record TenantDefinition : Type 0 where
  pub tenant_id : ℕ
  pub slug : ℕ
  pub hostname : ℕ
  pub enabled : Bool
  pub display_name : ℕ
  pub timezone : ℕ

pub record TenantRegistry : Type 0 where
  pub by_host : ℕ → Option TenantDefinition
  pub by_slug : ℕ → Option TenantDefinition

-- `d[key] = value` and `d.pop(key, None)`
abbrev pub put :
    ℕ → Option TenantDefinition → (ℕ → Option TenantDefinition) → ℕ → Option TenantDefinition
put key value d k = if k == key then value else d k

-- the truth of a text
abbrev pub is_text : ℕ → Bool
is_text text = not (text == 0)

-- `str.lower` is an argument.
module _ (lower : ℕ → ℕ) where
  unfoldable pub get : ℕ → TenantRegistry → Option TenantDefinition
  get host r = r.by_host (lower host)

  unfoldable pub get_by_slug : ℕ → TenantRegistry → Option TenantDefinition
  get_by_slug slug r = r.by_slug (lower slug)

  -- The host of a definition that is taken out.
  abbrev pub pop_host :
      Option TenantDefinition → (ℕ → Option TenantDefinition) → ℕ → Option TenantDefinition
  pop_host none d = d
  pop_host (some t) d = if is_text t.hostname then put (lower t.hostname) none d else d

  -- The hosts after the new definition's is set.
  abbrev pub set_host :
      TenantDefinition → (ℕ → Option TenantDefinition) → ℕ → Option TenantDefinition
  set_host t d = if is_text t.hostname then put (lower t.hostname) (some t) d else d

  unfoldable pub add : TenantDefinition → TenantRegistry → TenantRegistry
  add t r = record {
    by_host = set_host t (pop_host (r.by_slug (lower t.slug)) r.by_host);
    by_slug = put (lower t.slug) (some t) r.by_slug;
  }

  -- The slug of a definition that is taken out.
  abbrev pub pop_slug :
      Option TenantDefinition → (ℕ → Option TenantDefinition) → ℕ → Option TenantDefinition
  pop_slug none d = d
  pop_slug (some t) d = put (lower t.slug) none d

  unfoldable pub remove : ℕ → TenantRegistry → TenantRegistry
  remove host r = record {
    by_host = put (lower host) none r.by_host;
    by_slug = pop_slug (r.by_host (lower host)) r.by_slug;
  }

  unfoldable pub remove_by_slug : ℕ → TenantRegistry → TenantRegistry
  remove_by_slug slug r = record {
    by_host = pop_host (r.by_slug (lower slug)) r.by_host;
    by_slug = put (lower slug) none r.by_slug;
  }

-- `clear`, and `__init__`
abbrev pub empty : TenantRegistry
empty = record { by_host = λ _. none; by_slug = λ _. none }
