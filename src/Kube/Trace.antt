-- ===== src/Kube/Trace.antt =====
-- The calls that a run makes, in a log with the newest first: `traced` instruments any client and
-- any Helm client, and changes none of their answers.
use kube_ephemerals.Prelude.{String, Bool, true, false, not, ◌&&◌, ◌||◌, none, some, List, [], ◌∷◌}
use kube_ephemerals.Exec.{Result, ok, err, Exec}
use kube_ephemerals.Api.Types.{EphemeralEnv}
use kube_ephemerals.Kube.Objects.{ObjectKey, Kind, Object}
use kube_ephemerals.Kube.Client.{Client}
use kube_ephemerals.Helm.Client.{HelmClient}

-- `wrote` has the object as `CreateOrUpdate` creates it where there is none.
pub data Call : Type 0 where
  got_env : ObjectKey → Call
  updated_env updated_status : EphemeralEnv → Call
  got_template : ObjectKey → Call
  got_object : Kind → ObjectKey → Call
  wrote : Object → Call
  deleted : Kind → ObjectKey → Call
  listed_services : String → Call
  checked installed uninstalled : String → String → Call

-- `terminating` is the success of a `Get` whose object has a deletion timestamp, `not_installed` the
-- answer of a Helm client that a release is not installed; `accepted` says that it is.
pub data Reply : Type 0 where
  accepted terminating not_installed not_found refused : Reply

pub record Event : Type 0 where
  pub call : Call
  pub reply : Reply

pub record Logged (World : Type 0) : Type 0 where
  pub world : World
  pub log : List Event

abbrev reply_of {ℓ} : {A : Type ℓ} → (A → Reply) → Result A → Reply
reply_of f (ok a) = f a
reply_of f (err e) = elim e.is_not_found [ true ↦ not_found | false ↦ refused ]

abbrev of_object : Object → Reply
of_object o = elim o.deletion_timestamp [ none ↦ accepted | some _ ↦ terminating ]

abbrev of_check : Bool → Reply
of_check true = accepted
of_check false = not_installed

module _ {World A : Type 0} where
  abbrev pub logging : Call → (A → Reply) → Exec World A → Exec (Logged World) A
  logging c f m s =
      let (x, w) = m s.world in
      (x, record { world = w; log = record { call = c; reply = reply_of f x } ∷ s.log })

abbrev pub traced : Client → Client
traced c = record {
  World = Logged c.World;
  get_env = λ k. logging (got_env k) (λ _. accepted) (c.get_env k);
  update_env = λ e. logging (updated_env e) (λ _. accepted) (c.update_env e);
  update_env_status = λ e. logging (updated_status e) (λ _. accepted) (c.update_env_status e);
  get_template = λ k. logging (got_template k) (λ _. accepted) (c.get_template k);
  get_object = λ d k. logging (got_object d k) of_object (c.get_object d k);
  create_or_update = λ o f. logging (wrote (f o)) (λ _. accepted) (c.create_or_update o f);
  delete_object = λ d k. logging (deleted d k) (λ _. accepted) (c.delete_object d k);
  list_services = λ n. logging (listed_services n) (λ _. accepted) (c.list_services n);
  now = λ s. let (t, w) = c.now s.world in (t, record s { world = w });
}

module _ {World Values : Type 0} where
  abbrev pub traced_helm : HelmClient World Values → HelmClient (Logged World) Values
  traced_helm h = record {
    install = λ o. logging (installed o.release_name o.namespace) (λ _. accepted) (h.install o);
    uninstall = λ n ns. logging (uninstalled n ns) (λ _. accepted) (h.uninstall n ns);
    release_status =
        λ n ns s. let (x, w) = h.release_status n ns s.world in (x, record s { world = w });
    is_installed = λ n ns. logging (checked n ns) of_check (h.is_installed n ns);
  }

-- Each event that satisfies `q` comes after a log that satisfies `p`.
abbrev pub only_after : (List Event → Bool) → (Event → Bool) → List Event → Bool
only_after p q [] = true
only_after p q (e ∷ log) = (not (q e) || p log) && only_after p q log
