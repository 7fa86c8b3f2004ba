-- ===== src/Controller/Reconcile/Progress/Ready.antt =====
-- A cluster that serves its requests, and what holds between two steps on it.
use kube_ephemerals.Prelude.{String, Bool, some, ◌≡◌, ap, ◌∙◌}
use kube_ephemerals.Exec.{Result, ok}
use kube_ephemerals.Api.Types.{Time, EphemeralEnv}
use kube_ephemerals.Api.Template.{EnvironmentTemplate}
use kube_ephemerals.Kube.Objects.{ObjectKey, Object}
use kube_ephemerals.Helm.Client.{HelmClient, InstallOptions, ReleaseInfo}
use kube_ephemerals.Controller.Base.{Reconciler, Session, World}
use kube_ephemerals.Controller.Components.{resolve_components}
use kube_ephemerals.Controller.Components.Releases.{chosen, resolve_components-chosen}
use kube_ephemerals.Controller.Reconcile.Progress.{Serves}

-- A cluster that serves the reconciler while its state is `Up`, which no call changes: it accepts
-- the objects and stores a status as it was sent, the Helm client answers and installs, and the
-- templates do not change. Nothing is asked of what a call leaves in the cluster besides.
pub record Cooperates (r : Reconciler) (Up : World r → Type 0)
    (templates : ObjectKey → Result EnvironmentTemplate) : Type 0 where
  pub ticks : (w : World r) → Up w → Up (r.client.now w).1
  pub creates :
      (o : Object) (f : Object → Object) (w : World r)
      → Up w
      → ((r.client.create_or_update o f w).0 ≡ ok tt) × Up (r.client.create_or_update o f w).1
  pub reads :
      (key : ObjectKey) (w : World r)
      → Up w
      → ((r.client.get_template key w).0 ≡ templates key) × Up (r.client.get_template key w).1
  pub lists : (namespace : String) (w : World r) → Up w → Up (r.client.list_services namespace w).1
  pub stores :
      (env : EphemeralEnv) (w : World r)
      → Up w
      → (stored : EphemeralEnv) × ((r.client.update_env_status env w).0 ≡ ok stored)
        × (stored.status ≡ env.status)
  pub checks :
      (h : HelmClient (World r) r.library.Values)
      → r.helm_client ≡ some h
      → (name namespace : String) (w : World r) → Up w
      → (b : Bool) × ((h.is_installed name namespace w).0 ≡ ok b)
        × Up (h.is_installed name namespace w).1
  pub installs :
      (h : HelmClient (World r) r.library.Values)
      → r.helm_client ≡ some h
      → (o : InstallOptions r.library.Values) (w : World r) → Up w
      → (info : ReleaseInfo) × ((h.install o w).0 ≡ ok info) × Up (h.install o w).1

module _ (r : Reconciler) (Up : World r → Type 0)
    (templates : ObjectKey → Result EnvironmentTemplate) (cooperates : Cooperates r Up templates)
    (env : EphemeralEnv) (t : Time) where
  -- Between two steps: `placed` is what is known of the environment's namespace.
  pub record Ready (placed : String → Type 0) (s : Session (World r)) : Type 0 where
    pub up : Up s.world
    pub same_metadata : s.env.metadata ≡ env.metadata
    pub same_spec : s.env.spec ≡ env.spec
    pub timed : s.env.status.expiration_time ≡ some t
    pub located : placed s.env.status.active_namespace

  module _ (placed : String → Type 0) where
    moved :
        (s : Session (World r)) (w : World r)
        → Up w
        → Ready placed s
        → Ready placed (record s { world = w })
    moved s w u j = record {
      up = u;
      same_metadata = j.same_metadata;
      same_spec = j.same_spec;
      timed = j.timed;
      located = j.located;
    }

    pub Ready-serves : Serves r (Ready placed)
    Ready-serves = record {
      provisions = record {
        notes = record {
          clocked = λ s j. moved s _ (cooperates.ticks s.world j.up) j;
          restatus = λ f minor s j. record {
            up = j.up;
            same_metadata = j.same_metadata;
            same_spec = j.same_spec;
            timed = (minor s.env.status).2 ∙ j.timed;
            located = rw (minor s.env.status).1 j.located;
          };
        };
        creates = λ o f s j. moved s _ (cooperates.creates o f s.world j.up).1 j;
        reads = λ k s j. moved s _ (cooperates.reads k s.world j.up).1 j;
        lists = λ n s j. moved s _ (cooperates.lists n s.world j.up) j;
        deploys = λ h e. record {
          checks = λ n ns s j. moved s _ (cooperates.checks h e n ns s.world j.up).2 j;
          installs = λ o s j. moved s _ (cooperates.installs h e o s.world j.up).2 j;
        };
      };
      creating = λ o f s j. (tt, (cooperates.creates o f s.world j.up).0);
      checking = λ h e n ns s j.
          let (b, answered, _) = cooperates.checks h e n ns s.world j.up in (b, answered);
      installing = λ h e o s j.
          let (info, answered, _) = cooperates.installs h e o s.world j.up in (info, answered);
    }

    pub resolves :
        (s : Session (World r))
        → Ready placed s
        → (resolve_components r s).0 ≡ ok (chosen templates env)
    resolves s j =
        resolve_components-chosen r s
        ∙ ap (λ answer. ok (chosen answer s.env)) (λ i key. (cooperates.reads key s.world j.up).0 i)
        ∙ ap (λ e. ok (chosen templates e))
            (λ i. record s.env { metadata = j.same_metadata i; spec = j.same_spec i })
