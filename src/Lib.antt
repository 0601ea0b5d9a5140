-- ===== src/Lib.antt =====
-- A verification library of the Vertica operator for Kubernetes.
--
-- The operator keeps databases that users describe by VerticaDB objects, and scales them for
-- VerticaAutoscaler objects. An object that a user writes goes through the admission webhook,
-- which sets defaults and rejects what is not valid. The reconcilers then bring the cluster to
-- what the object says; those of the autoscaler change the subclusters of a VerticaDB.
--
-- Prelude and its children have what the modules share: Boolean tests, lists measured by native
-- numbers, integers and their 32-bit arithmetic (Int32, which wraps around as Go's int32 does),
-- texts with Go's tests on them and the decimal numerals, and Go's maps as association lists.
--
-- Api/Types.antt has the structs of api/v1beta1/verticadb_types.go and
-- verticaautoscaler_types.go, and Api/Methods.antt and Api/Paths.antt their methods. A field
-- whose type is a Kubernetes library's is an opaque text: the code only copies such a value, or
-- compares it by reflect.DeepEqual. A slice that the code compares so is an option of a list, as
-- nil differs from an empty slice there.
--
-- Api/Webhook/ is api/v1beta1/verticadb_webhook.go. Errors.antt has the lists of field errors
-- and the notion of a check that is silent exactly where a condition holds; Default.antt is
-- Default; Cluster.antt, Subclusters.antt, Mounts.antt and Routing.antt have the checks, in the
-- source one method each and here one function each; Create.antt is validateVerticaDBSpec and
-- ValidateCreate; Immutable.antt is validateImmutableFields and ValidateUpdate. The conditions
-- and proofs are in their children. An error keeps its path and its message; the rejected value,
-- which is only printed, and the numbers and names inside a message are left out.
-- resource.Quantity's Cmp is a parameter.
--
-- Api/Webhook/Autoscaler.antt is api/v1beta1/verticaautoscaler_webhook.go.
--
-- Vas/ is pkg/controllers/vas: Vas/Scale.antt is scaleSubcluster, with
-- considerRemovingSubclusters in Vas/Remove.antt and considerAddingSubclusters in Vas/Add.antt,
-- of subclusterscale_reconcile.go; Vas/Resize.antt is resizeSubcluster of
-- subclusterresize_reconcile.go. They are functions from the subclusters to what the reconciler
-- writes. A loop that goes through a slice from the back is recursion whose tail comes first.
-- The two loops of the source that need not end run on fuel: that of genNextSubclusterName on
-- one round more than the map has names, which is enough whatever the names are, that of
-- considerAddingSubclusters on any number greater than the pods to add, which is enough where
-- the new subclusters have pods.
--
-- Version.antt is pkg/version/version.go: the parser, the order and the upgrade paths. A panic
-- is none.
--
-- PodFacts.antt has the facts on pods of pkg/controllers/vdb/podfacts.go, with the functions
-- that find pods and count them, and Status.antt the condition array of pkg/vdbstatus/status.go.
--
-- Labels.antt is pkg/builder/labels_annotations.go, and Finder.antt the selection of objects by
-- their labels of pkg/iter/sc_finder.go. The order by name that a finder's flag may ask for is
-- left to the list of objects.
--
-- Upgrade/ is the upgrade of a cluster to a new image. Upgrade/World.antt has what it works on:
-- the VerticaDB and the other objects in the API server, the facts on pods, and a list that says
-- which of the client's next calls fail, so that a theorem covers every failure. A function of a
-- reconciler takes the world to its answer, a ctrl.Result and an error, and the new world; what
-- other programs do between two such functions is not in it. Upgrade/Manager.antt is the part of
-- pkg/controllers/vdb/upgrade.go that starts, reports on and finishes an upgrade, with Update,
-- UpdateCondition and UpdateUpgradeStatus of pkg/vdbstatus/status.go; a retry on a conflict is
-- part of a call. Upgrade/Policy.antt has the choice between the two kinds of upgrade and
-- IsUpgradeNeeded, and Upgrade/Images.antt the two loops that change the statefulsets' images and
-- delete the pods with an old image. Upgrade/Offline.antt is offlineupgrade_reconcile.go; the
-- other reconcilers that it calls, admintools and the collection of facts are the parameters of
-- OfflineActors. Of onlineupgrade_reconciler.go, Upgrade/Transient.antt has the way of the
-- transient subcluster into the VerticaDB and out of it, and Upgrade/Routing.antt the choice of
-- the subcluster that serves the clients meanwhile; Upgrade/Online.antt has the restart of the
-- subclusters, and Upgrade/Online/Reconcile.antt the order of all steps, with OnlineActors and
-- TransientActors for what they call. Upgrade/Admission.antt joins the start of an
-- upgrade to the webhook.
--
-- Report.antt is pkg/controllers/vdb/status_reconcile.go: the status of a subcluster and of the
-- cluster from the facts on pods, and Report/Reconcile.antt its Reconcile.
--
-- Revive.antt is getPodList of pkg/controllers/vdb/revivedb_reconcile.go: the order in which the
-- pods are given to revive_db. It ends without a list when a pod has no facts or an index of the
-- revive order is out of range.
--
-- Tests.antt and its children apply the theorems to a database of three subclusters.
--
-- Not modelled: running commands in pods (collecting facts, admintools, installing), logs and
-- metrics, the builders of Kubernetes objects, the revive_db command, and the
-- other reconcilers of VerticaDB.
pub mod Prelude
pub mod Api
pub mod Vas
pub mod Version
pub mod PodFacts
pub mod Status
pub mod Finder
pub mod Labels
pub mod Upgrade
pub mod Report
pub mod Revive
pub mod Tests
