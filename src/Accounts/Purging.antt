-- ===== src/Accounts/Purging.antt =====
-- How far a purge reaches: `lgpd_purge_user` of backend/app/domains/auth/service.py.
use cau_sium.Prelude.{
  ℕ, ◌≡◌, ◌∙◌, ap, arith, refl, String, true, false, Option, none, some, ok, ◌==◌, find_row, not,
  ◌&&◌,
}
use cau_sium.Audit.{Payload, AuditCall}
use cau_sium.Accounts.{
  User, AuthStore, Services, get_user_by_id, can_manage, is_taken, write_user, save_user,
  append_audit, record_event, purged, purged_payload, drop_credentials, lgpd_purge_user,
}
use cau_sium.Accounts.Escalation.{written_same}

audited :
    (org_id : Option ℕ) (call : ℕ → AuditCall) (t : AuthStore) {n : ℕ}
    → org_id ≡ some n
    → ((append_audit org_id call t).0 ≡ ok tt) × ((append_audit org_id call t).1.users ≡ t.users)
unfolding append_audit
audited none call t e = absurd (cc e)
audited (some org_id) call t e = (refl, refl)

event_recorded :
    (C : Services) (actor u : User) (event_type : String) (payload : Payload) (t : AuthStore)
    {org_id : ℕ}
    → u.org_id ≡ some org_id
    → ((record_event C actor u event_type payload t).0 ≡ ok tt)
      × ((record_event C actor u event_type payload t).1.users ≡ t.users)
unfolding record_event
event_recorded C actor u event_type payload t {org_id} known =
    audited u.org_id _ t {n = org_id} known

-- A purge of a user by an actor who outranks that user succeeds and leaves the user deactivated and
-- anonymous, whatever the workspaces of the two are, if the user is of a workspace and the anonymous
-- address is free.
pub purge_crosses_workspaces :
    (C : Services) (actor u : User) (s : AuthStore) (org_id salt now : ℕ) (draw : String)
    → get_user_by_id u.id s ≡ some u
    → can_manage actor u ≡ true
    → u.org_id ≡ some org_id
    → is_taken (purged C now (C.hash_password salt draw) u) s ≡ false
    → let r = lgpd_purge_user C actor u.id salt draw now s in
      (r.0 ≡ ok tt) × (get_user_by_id u.id r.1 ≡ some (purged C now (C.hash_password salt draw) u))
unfolding lgpd_purge_user save_user
purge_crosses_workspaces C actor u s org_id salt now draw found manages known free =
    let u' = purged C now (C.hash_password salt draw) u in
    let t = drop_credentials C u.id (write_user u' s) in
    let told =
      event_recorded C actor u "auth.user.lgpd_purge" (purged_payload C actor (actor.id == u.id)) t
        {org_id = org_id} known in
    let allowed : (not (actor.id == u.id) && not (can_manage actor u)) ≡ false =
      ground (arith, manages) in
    let there =
      ap (λ users. find_row (λ v. v.id == u.id) users) told.1 ∙ written_same s u u' found refl in
    simp (found, allowed, free) (told.0, there)
