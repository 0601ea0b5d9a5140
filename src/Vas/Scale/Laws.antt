-- ===== src/Vas/Scale/Laws.antt =====
-- Scaling by whole subclusters moves the number of pods towards the target and never past it.
use vertica_kubernetes.Prelude.{ℕ, String, List, ◌==◌ as nat_eq}
use vertica_kubernetes.Api.Types.{Subcluster, VerticaAutoscaler}
use vertica_kubernetes.Vas.Scale.Moves.{Moves}

module _ (vas : VerticaAutoscaler) (s t fuel : ℕ) (scs : List Subcluster) where
  abbrev svc_name : String
  svc_name = vas.spec.service_name
