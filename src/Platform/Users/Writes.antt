-- ===== src/Platform/Users/Writes.antt =====
-- What the calls write to the table of administrators.
use peka_saas.Common.{
  ℕ, ◌≡◌, inl, inr, Bool, false, arith, ◌==◌, ◌&&◌, not, Option-cases, Bool-cases,
}
use peka_saas.Common.Guarded
use peka_saas.Common.Exec.{begin, is_ok}
use peka_saas.Common.Keyed.{find-Any}
use peka_saas.Platform.Types.{
  PlatformAdmin, Db, Env, Fresh, get_by_id, get_by_token_hash, count_active_admins,
}
use peka_saas.Platform.Users.{
  PlatformUserCreate, PlatformUserUpdate, create, new_admin, update, updated, gives_up_last,
  set_active, with_active, is_last, consume_reset, restored, change_password, with_password,
}

-- A guarded write to a row that the call found, a write to the rows of an id, and a new row; or the
-- table as it was.
abbrev pub Wrote : (PlatformAdmin → PlatformAdmin) → (PlatformAdmin → Type 0) → Db → Db → Type 0
Wrote f P d e = Guarded.Wrote (λ u. u.id) f P d.admins e.admins

abbrev pub Touched : (PlatformAdmin → PlatformAdmin) → Db → Db → Type 0
Touched f d e = Guarded.Touched (λ u. u.id) f d.admins e.admins

abbrev pub Added : PlatformAdmin → Db → Db → Type 0
Added u d e = Guarded.Added (λ u. u.id) u d.admins e.admins

module _ (env : Env) (d : Db) where
  pub create-Added :
      (n : Fresh) (p : PlatformUserCreate) (actor_id : ℕ)
      → Added (new_admin n p) d (create env n p actor_id (begin d)).1.committed
  unfolding create
  create-Added n p actor_id = elim (Bool-cases (is_ok (create env n p actor_id (begin d)).0)) [
    | inl e ↦ inr (ground arith)
    | inr e ↦ inl (ground arith)
  ]

  pub update-Wrote :
      (user_id : ℕ) (p : PlatformUserUpdate) (actor_id : ℕ)
      → Wrote
          (updated p)
          (λ u. gives_up_last p actor_id u (count_active_admins d) ≡ false)
          d
          (update env user_id p actor_id (begin d)).1.committed
  unfolding update
  update-Wrote user_id p actor_id = elim (Option-cases (get_by_id user_id d)) [
    | inl e ↦ inl (ground arith)
    | inr (u, e) ↦ elim (Bool-cases (is_ok (update env user_id p actor_id (begin d)).0)) [
      | inr e' ↦ inl (ground arith)
      | inl e' ↦ inr (u, find-Any (λ x. x.id == user_id) d.admins u e, ground arith, ground arith)
    ]
  ]

  pub set_active-Wrote :
      (user_id : ℕ) (active : Bool) (actor_id : ℕ)
      → Wrote
          (with_active active)
          (λ u. (not active && is_last u (count_active_admins d)) ≡ false)
          d
          (set_active env user_id active actor_id (begin d)).1.committed
  unfolding set_active
  set_active-Wrote user_id active actor_id = elim (Option-cases (get_by_id user_id d)) [
    | inl e ↦ inl (ground arith)
    | inr (u, e) ↦ elim (Bool-cases (is_ok (set_active env user_id active actor_id (begin d)).0)) [
      | inr e' ↦ inl (ground arith)
      | inl e' ↦ inr (u, find-Any (λ x. x.id == user_id) d.admins u e, ground arith, ground arith)
    ]
  ]

  pub consume_reset-Touched :
      (raw password now : ℕ)
      → Touched (restored env password) d (consume_reset env raw password now (begin d)).1.committed
  unfolding consume_reset
  consume_reset-Touched raw password now =
      elim (Option-cases (get_by_token_hash (env.hash_token raw) d)) [
        | inl e ↦ inl (ground arith)
        | inr (i, e) ↦ elim (Option-cases (get_by_id i.user_id d)) [
          | inl e' ↦ inl (ground arith)
          | inr (u, e') ↦
              elim (Bool-cases (is_ok (consume_reset env raw password now (begin d)).0)) [
                | inl e'' ↦ inr (u.id, ground arith)
                | inr e'' ↦ inl (ground arith)
              ]
        ]
      ]

  pub change_password-Touched :
      (u : PlatformAdmin) (current new : ℕ)
      → Touched (with_password env new) d (change_password env u current new (begin d)).1.committed
  unfolding change_password
  change_password-Touched u current new =
      elim (Bool-cases (is_ok (change_password env u current new (begin d)).0)) [
        | inl e ↦ inr (u.id, ground arith)
        | inr e ↦ inl (ground arith)
      ]
