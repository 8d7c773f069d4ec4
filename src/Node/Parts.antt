-- ===== src/Node/Parts.antt =====
-- A relation that each part of install_rules keeps.
use gardener_extension_shoot.Common.{ℕ, Bool, ◌||◌}
use gardener_extension_shoot.Common.Effect.{Effect, ◌>>=◌, ◌>>◌}
use gardener_extension_shoot.Common.Effect.Laws.{IsPreorder, Keeps, >>=-Keeps, >>-Keeps}
use gardener_extension_shoot.Node.{Contents, Load, AuditState}
use gardener_extension_shoot.Node.Audit.{
  replace_rules, load_and_report, enable_plugin, start_auditd, stop_audit_socket,
}

module _ {D : Type 0} (contents : Contents D) (load : D → Load) where
  -- what install_rules does behind the rules' replacement
  abbrev pub followed : Bool → Effect ℕ (AuditState D) (Unit {0})
  followed changed =
      load_and_report contents load changed
      >> (enable_plugin >>= λ enabled. start_auditd (changed || enabled) >> stop_audit_socket)

  -- what it does behind the back-up
  abbrev pub installed : D → Effect ℕ (AuditState D) (Unit {0})
  installed osc = replace_rules contents osc >>= followed

  pub record FollowedKeep (R : AuditState D → AuditState D → Type 0) : Type 0 where
    pub order : IsPreorder R
    pub reports : (changed : Bool) → Keeps R (load_and_report contents load changed)
    pub enables : Keeps R enable_plugin
    pub starts : (restart : Bool) → Keeps R (start_auditd restart)
    pub stops : Keeps R stop_audit_socket

  pub record PartsKeep (R : AuditState D → AuditState D → Type 0) : Type 0 where
    pub follow : FollowedKeep R
    pub replaces : (osc : D) → Keeps R (replace_rules contents osc)

  pub followed-Keeps :
      (R : AuditState D → AuditState D → Type 0)
      → FollowedKeep R
      → (changed : Bool) → Keeps R (followed changed)
  followed-Keeps R keep changed =
      >>-Keeps R keep.order (load_and_report contents load changed) _ (keep.reports changed) (
        >>=-Keeps R keep.order enable_plugin _ keep.enables λ enabled.
          >>-Keeps R keep.order (start_auditd (changed || enabled)) stop_audit_socket
            (keep.starts (changed || enabled)) keep.stops)

  pub installed-Keeps :
      (R : AuditState D → AuditState D → Type 0) → PartsKeep R → (osc : D) → Keeps R (installed osc)
  installed-Keeps R keep osc =
      >>=-Keeps R keep.follow.order (replace_rules contents osc) _ (keep.replaces osc)
        (followed-Keeps R keep.follow)
