-- ===== src/Accounts/Managing.antt =====
-- The administrators' operations of backend/app/domains/auth/service.py, each by what it writes.
use cau_sium.Prelude.{
  ℕ, ◌≡◌, refl, String, ◌⊎◌, inl, inr, Bool, true, false, ◌&&◌, not, some, ◌||◌, length, select,
  ◌==◌, Bool-cases, arith,
}
use cau_sium.Prelude.Actions.{Action, pure, modify, ◌>>◌}
use cau_sium.Audit.{Payload, dict, field, end, str}
use cau_sium.Accounts.{
  User, UserUpdate, AuthStore, Services, get_user_by_id, can_manage, is_platform_admin, promotes,
  write_user, save_user, record_event, send_mail, is_changed, updated, save_changes,
  admin_update_user, deleted, deleted_payload, delete_target, admin_delete_user, purged,
  purged_payload, purge_target, drop_credentials, lgpd_purge_user,
}
use cau_sium.Accounts.Administration.{
  is_filled, drop_factors, role_fields, reset_mail, mfa_payload, with_temporary, without_factors,
  deactivated_user, admin_reset_password, admin_reset_mfa, admin_deactivate_user,
}
use cau_sium.Accounts.Writing.{
  Allowed, is_outside, affirmed, after_then, guard_keeps, save_keeps, event_keeps, target_keeps,
  scoped_keeps,
}

module _ {κ} (P : AuthStore → Type κ)
    (users_only : (s t : AuthStore) → t.users ≡ s.users → P s → P t) where
  module _ (C : Services) (purging : Bool) (actor : User) (s : AuthStore) (h : P s)
      (written : (u u' : User) → Allowed purging actor s u u' → P (write_user u' s)) where
    -- The writes that change neither id nor workspace nor role.
    plain :
        (u u' : User)
        → get_user_by_id u.id s ≡ some u
        → u'.id ≡ u.id
        → u'.org_id ≡ u.org_id
        → u'.role ≡ u.role
        → (purging ≡ true) ⊎ (is_outside actor u ≡ false)
        → (can_manage actor u ≡ true) ⊎ (actor.id ≡ u.id)
        → P (write_user u' s)
    plain u u' found same_id same_org same_role inside manages = written u u' record {
      found = found;
      inside = inside;
      same_id = same_id;
      same_org = same_org;
      manages = manages;
      role = inl same_role;
    }

    save_then_event :
        (u u' : User) (event_type : String) (payload : Payload)
        → P (write_user u' s)
        → P ((save_user u' >> record_event C actor u event_type payload) s).1
    save_then_event u u' event_type payload w =
        let saved = save_keeps P users_only u' s h w in
        after_then P users_only (λ _. record_event C actor u event_type payload) (save_user u' s)
          saved
          (λ _. event_keeps P users_only C actor u event_type payload (save_user u' s).1 saved)

    changes_keep :
        (u : User) (req : UserUpdate) (b : Bool)
        → P (write_user (updated req u) s)
        → P (save_changes C actor u req b s).1
    changes_keep u req false w = h
    changes_keep u req true w = save_then_event u (updated req u) "auth.user.updated" _ w

    update_allowed :
        (u : User) (req : UserUpdate)
        → get_user_by_id u.id s ≡ some u
        → is_outside actor u ≡ false
        → can_manage actor u ≡ true
        → (promotes req.role && not (is_platform_admin actor.role)) ≡ false
        → P (write_user (updated req u) s)
    update_allowed u req found inside manages safe = written u (updated req u) record {
      found = found;
      inside = inr inside;
      same_id = refl;
      same_org = refl;
      manages = inl manages;
      role = elim (Bool-cases (is_platform_admin actor.role)) [
        | inl platform ↦ inr (manages, inl platform)
        | inr other ↦
            let kept : promotes req.role ≡ false = ground (arith, safe, other) in
            inr (manages, inr (req, kept, refl))
      ];
    }

    pub update_keeps :
        (user_id : ℕ) (req : UserUpdate) → P (admin_update_user C actor user_id req s).1
    unfolding admin_update_user
    update_keeps user_id req = scoped_keeps P users_only actor user_id _ s h (λ u found inside.
        guard_keeps P users_only _ _ _ s h (λ manages. guard_keeps P users_only _ _ _ s h (λ safe.
          let kept =
            changes_keep u req (is_changed req u)
              (update_allowed u req found inside (affirmed (can_manage actor u) manages) safe) in
          after_then P users_only _ (save_changes C actor u req (is_changed req u) s) kept
            (λ _. kept))))

    event_then :
        {B : Type 0} (u : User) (event_type : String) (payload : Payload) (f : Action AuthStore B)
        (t : AuthStore)
        → ((v : AuthStore) → (f v).1.users ≡ v.users)
        → P t
        → P ((record_event C actor u event_type payload >> f) t).1
    event_then u event_type payload f t same kept =
        let told = event_keeps P users_only C actor u event_type payload t kept in
        after_then P users_only (λ _. f) (record_event C actor u event_type payload t) told
          (λ _. users_only (record_event C actor u event_type payload t).1 _ (same _) told)

    delete_target_keeps :
        (u : User) (reason : String) (now : ℕ)
        → P (write_user (deleted C now u) s)
        → P (delete_target C actor u reason now s).1
    delete_target_keeps u reason now w =
        let saved = save_keeps P users_only (deleted C now u) s h w in
        after_then P users_only _ (save_user (deleted C now u) s) saved (λ _.
          event_then u "auth.user.deleted" (deleted_payload C actor u reason)
            (pure (deleted C now u)) (save_user (deleted C now u) s).1 (λ v. refl) saved)

    purge_target_keeps :
        (u : User) (hashed : String) (now : ℕ)
        → P (write_user (purged C now hashed u) s)
        → P (purge_target C actor u hashed now s).1
    purge_target_keeps u hashed now w =
        let t = (save_user (purged C now hashed u) s).1 in
        let saved = save_keeps P users_only (purged C now hashed u) s h w in
        after_then P users_only _ (save_user (purged C now hashed u) s) saved (λ _.
          event_keeps P users_only C actor u "auth.user.lgpd_purge"
            (purged_payload C actor (actor.id == u.id)) (drop_credentials C u.id t)
            (users_only t _ refl saved))

    pub delete_keeps :
        (user_id : ℕ) (reason : String) (now : ℕ)
        → P (admin_delete_user C actor user_id reason now s).1
    unfolding admin_delete_user
    delete_keeps user_id reason now =
        scoped_keeps P users_only actor user_id _ s h (λ u found inside.
          elim (Bool-cases (can_manage actor u)) [
            | inr below ↦ rw below h
            | inl manages ↦
                let kept =
                  delete_target_keeps u reason now
                    (plain u (deleted C now u) found refl refl refl (inr inside) (inl manages)) in
                elim (Bool-cases u.is_active) [
                  | inr gone ↦ rw (manages, gone) h
                  | inl here ↦ simp (manages, here) kept
                ]
          ])

    -- The actor outranks the target, or is the target.
    own_or_below :
        (u : User)
        → (not (actor.id == u.id) && not (can_manage actor u)) ≡ false
        → (can_manage actor u ≡ true) ⊎ (actor.id ≡ u.id)
    own_or_below u h = elim (Bool-cases (can_manage actor u)) [
      | inl manages ↦ inl manages
      | inr below ↦ inr (ground (arith, h, below))
    ]

    pub purge_keeps :
        (is_purge : purging ≡ true) (user_id salt : ℕ) (draw : String) (now : ℕ)
        → P (lgpd_purge_user C actor user_id salt draw now s).1
    unfolding lgpd_purge_user
    purge_keeps is_purge user_id salt draw now =
        target_keeps P users_only user_id _ _ s h (λ u found.
          elim (Bool-cases (not (actor.id == u.id) && not (can_manage actor u))) [
            | inl refused ↦ rw refused h
            | inr allowed ↦
                let hashed = C.hash_password salt draw in
                let kept = purge_target_keeps u hashed now (
                  plain u (purged C now hashed u) found refl refl refl (inl is_purge)
                    (own_or_below u allowed)) in
                simp allowed kept
          ])

    pub reset_password_keeps :
        (user_id : ℕ) (draw : String) (salt : ℕ)
        → P (admin_reset_password C actor user_id draw salt s).1
    unfolding admin_reset_password
    reset_password_keeps user_id draw salt =
        scoped_keeps P users_only actor user_id _ s h (λ u found inside.
          elim (Bool-cases (can_manage actor u)) [
            | inr below ↦ rw below h
            | inl manages ↦
                let u' = with_temporary (C.hash_password salt draw) u in
                let w = plain u u' found refl refl refl (inr inside) (inl manages) in
                let kept =
                  event_then u' "auth.password.admin_reset" (dict (role_fields C actor u' end))
                    (modify (send_mail (reset_mail C u' draw)) >> pure (u', draw)) (write_user u' s)
                    (λ v. refl) w in
                simp manages kept
          ])

    pub reset_mfa_keeps : (user_id : ℕ) → P (admin_reset_mfa C actor user_id s).1
    unfolding admin_reset_mfa
    reset_mfa_keeps user_id = scoped_keeps P users_only actor user_id _ s h (λ u found inside.
        elim (Bool-cases (not (actor.id == u.id) && not (can_manage actor u))) [
          | inl refused ↦ rw refused h
          | inr allowed ↦
              let count = length (select (λ p. p.user_id == u.id) s.passkeys) in
              let w =
                plain u (without_factors u) found refl refl refl (inr inside)
                  (own_or_below u allowed) in
              let stripped = write_user (without_factors u) (drop_factors u.id s) in
              let kept =
                event_then u "auth.mfa.admin_reset" (mfa_payload C actor u count)
                  (pure (
                    without_factors u,
                    (count, u.totp_enabled || is_filled u.totp_secret_encrypted),
                  ))
                  stripped (λ v. refl)
                  (users_only (write_user (without_factors u) s) stripped refl w) in
              simp allowed kept
        ])

    pub deactivate_keeps :
        (user_id : ℕ) (reason : String) (now : ℕ)
        → P (admin_deactivate_user C actor user_id reason now s).1
    unfolding admin_deactivate_user
    deactivate_keeps user_id reason now =
        scoped_keeps P users_only actor user_id _ s h (λ u found inside.
          elim (Bool-cases (actor.id == u.id)) [
            | inl self ↦ rw self h
            | inr other ↦ elim (Bool-cases (can_manage actor u)) [
              | inr below ↦ rw (other, below) h
              | inl manages ↦
                  let u' = deactivated_user now u in
                  let kept =
                    event_then u "auth.user.deactivated"
                      (dict (role_fields C actor u (field "reason" (str reason) end))) (pure u')
                      (write_user u' s) (λ v. refl)
                      (plain u u' found refl refl refl (inr inside) (inl manages)) in
                  elim (Bool-cases u.is_active) [
                    | inr gone ↦ rw (other, manages, gone) h
                    | inl here ↦ simp (other, manages, here) kept
                  ]
            ]
          ])
