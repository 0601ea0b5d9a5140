-- ===== src/Upgrade/Admission.antt =====
-- An upgrade and the webhook together: what a user can change while the upgrade runs.
use vertica_kubernetes.Prelude.{ℕ, ◌≡◌, ◌≢◌, inl, inr, String, some, none, true, Bool, arith}
use vertica_kubernetes.Api.Types.{Opaque, VerticaDb}
use vertica_kubernetes.Api.Constants.{image_change_in_progress_index}
use vertica_kubernetes.Api.Webhook.Immutable.{validate_update, is_image_change_in_progress}
use vertica_kubernetes.Api.Webhook.Immutable.Laws.{validate_update_iff}
use vertica_kubernetes.Status.{condition_index}
use vertica_kubernetes.Upgrade.World.{World}
use vertica_kubernetes.Upgrade.Manager.{start_upgrade}
use vertica_kubernetes.Upgrade.Manager.Conditions.{HasConditions, Toggles, IsToggled}
use vertica_kubernetes.Upgrade.Manager.Goals.{with_start_event}
use vertica_kubernetes.Upgrade.Manager.Lifecycle.{start_upgrade-Toggles}

-- Once an upgrade has been started without an error, the webhook admits no update of the VerticaDB
-- that changes the policy of the upgrade, or the names or the template of the temporary routing.
-- `same_quantity` compares quantities.
pub start_upgrade-keeps_policy :
    (same_quantity : Opaque → Opaque → Bool) (status_condition : String) (inx : ℕ) (w : World)
    (v : VerticaDb)
    → condition_index status_condition ≡ some inx
    → image_change_in_progress_index ≢ inx
    → HasConditions w
    → (start_upgrade status_condition w).0.err ≡ none
    → validate_update same_quantity v (start_upgrade status_condition w).1.vdb ≡ none
    → (v.spec.upgrade_policy ≡ w.vdb.spec.upgrade_policy)
      × (v.spec.temporary_subcluster_routing.names ≡ w.vdb.spec.temporary_subcluster_routing.names)
      × (v.spec.temporary_subcluster_routing.template
          ≡ w.vdb.spec.temporary_subcluster_routing.template)
unfolding is_image_change_in_progress
start_upgrade-keeps_policy same_quantity status_condition inx w v known differ h ok admitted =
    let v' = (start_upgrade status_condition w).1.vdb in
    let (u, _) = (validate_update_iff same_quantity v v').0 admitted in
    let t = started (start_upgrade-Toggles status_condition inx w known differ h) in
    ground (arith, u.upgrade, t.image_change, t.frame.spec)
  where
    started :
        Toggles inx true w w (with_start_event w) (start_upgrade status_condition w)
        → IsToggled inx true (with_start_event w) (start_upgrade status_condition w).1
    started (inl (a, t)) = t
    started (inr (a, t, u)) = absurd (a ok)
