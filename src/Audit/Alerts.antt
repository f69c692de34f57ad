-- ===== src/Audit/Alerts.antt =====
-- Which audit events raise a notification, and how severe it is
-- (backend/app/domains/audit_chain/service.py).
use cau_sium.Prelude.{
  String, Bool, true, false, ◌||◌, ◌≡◌, List, [], ◌∷◌, str_eq, if◌then◌else◌, codes, lower,
  contains, Text, refl, ap, ◌≢◌, arith, str_eq_iff, Bool-cases, inl, inr,
}
use cau_sium.Audit.Store.{Severity, info, warning, critical}

-- `_AUDIT_NOTIFICATION_ALLOWLIST`
unfoldable pub notification_allowlist : List String
notification_allowlist =
    "invite.created" ∷ "invite.accepted" ∷ "invite.revoked" ∷ "auth.user.deactivated"
    ∷ "auth.passkey.revoked" ∷ "auth.mfa.totp.enabled" ∷ "auth.mfa.totp.disabled"
    ∷ "auth.password.changed" ∷ "auth.password.admin_reset" ∷ "auth.mfa.admin_reset"
    ∷ "auth.user.lgpd_purge" ∷ "cloud_account.created" ∷ "cloud_account.deleted"
    ∷ "cloud_account.sync.completed" ∷ "cloud_account.sync.warning" ∷ "worker.ingestion.dlq_failure"
    ∷ "worker.carbon_sync.dlq_failure" ∷ "budget.threshold.crossed" ∷ "cost.anomaly.detected"
    ∷ "support_access.started" ∷ "support_access.ended" ∷ "platform_admin.workspace.force_suspended"
    ∷ "platform_admin.workspace.force_restored" ∷ "platform_admin.workspace.force_archived"
    ∷ "experiment.approved" ∷ "change_event.created" ∷ []

str_in : String → List String → Bool
str_in s [] = false
str_in s (t ∷ ts) = str_eq s t || str_in s ts

unfoldable pub should_emit_notification : String → Bool
unfolding str_in notification_allowlist
should_emit_notification event_type = str_in event_type notification_allowlist

-- `any(k in text for k in needles)`
any_in : List Text → Text → Bool
unfolding contains
any_in [] s = false
any_in (k ∷ ks) s = contains k s || any_in ks s

unfoldable pub alert_severity : String → Severity
unfolding any_in lower
alert_severity event_type =
    let normalized_event = lower (codes event_type) in
    if any_in (codes "blocked" ∷ codes "compromised" ∷ codes "critical" ∷ []) normalized_event
    then critical
    else if any_in (codes "deleted" ∷ codes "revoked" ∷ codes "failed" ∷ codes "denied" ∷ [])
        normalized_event
    then warning
    else info

abbrev is_critical : Severity → Bool
is_critical critical = true
is_critical _ = false

none_critical : List String → Bool
none_critical [] = true
none_critical (t ∷ ts) = if is_critical (alert_severity t) then false else none_critical ts

none_critical_sound :
    (s : String) (ts : List String)
    → none_critical ts ≡ true
    → str_in s ts ≡ true
    → is_critical (alert_severity s) ≡ false
unfolding none_critical str_in
none_critical_sound s [] h m = cc
none_critical_sound s (t ∷ ts) h m = elim (Bool-cases (str_eq s t)) [
  | inl same ↦ rw ((str_eq_iff s t).0 same) (ground arith)
  | inr other ↦ ground (arith, none_critical_sound s ts)
]

allowlist_none_critical : none_critical notification_allowlist ≡ true
unfolding none_critical notification_allowlist alert_severity
allowlist_none_critical = refl

-- No event type that raises a notification gets the severity CRITICAL.
emitted_not_critical :
    (event_type : String)
    → should_emit_notification event_type ≡ true
    → alert_severity event_type ≢ critical
unfolding should_emit_notification
emitted_not_critical t h e =
    let calm = none_critical_sound t notification_allowlist allowlist_none_critical h in
    cc (ap is_critical e, calm)
