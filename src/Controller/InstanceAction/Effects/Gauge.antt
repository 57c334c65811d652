-- ===== src/Controller/InstanceAction/Effects/Gauge.antt =====
-- The gauge of broker Pods, beside the Pods that were created and removed.
use akri.Base.{String, Bool, true, false, Option, ok, ◌≡◌, arith, tally}
use akri.Controller.InstanceAction.Walk.{change-Keeps}
use akri.Kube.Types.{ℤ, Time, KubeAkriInstance, KubeAkriConfig}
use akri.Kube.Api.{Event, created_pod, removed_pod, metric_inc, metric_dec, Trace, KubeInterface}
use akri.Kube.Pods.{create_new_pod_from_spec}
use akri.Controller.PodAction.{InstanceAction}
use akri.Controller.InstanceAction.{
  PodContext, handle_deletion_work, handle_addition_work, handle_instance_change,
}

abbrev pub is_creation : Event → Bool
is_creation (created_pod p ns (ok u)) = true
is_creation _ = false

abbrev pub is_removal : Event → Bool
is_removal (removed_pod n ns (ok u)) = true
is_removal _ = false

abbrev pub is_inc : Event → Bool
is_inc (metric_inc a b) = true
is_inc _ = false

abbrev pub is_dec : Event → Bool
is_dec (metric_dec a b) = true
is_dec _ = false

pub record IsGauged (t : Trace) : Type 0 where
  pub raised : tally is_inc t ≡ tally is_creation t
  pub lowered : tally is_dec t ≡ tally is_removal t

module _ (kube : KubeInterface) where
  deletion-IsGauged :
      (name config : String) (shared : Bool) (node : String) (ctx : PodContext) (t : Trace)
      → IsGauged t
      → IsGauged (handle_deletion_work kube name config shared node ctx t).1
  unfolding handle_deletion_work
  deletion-IsGauged name config shared node ctx t h = ground arith

  addition-IsGauged :
      (name uid ns config : String) (shared : Bool) (node : String) (c : KubeAkriConfig) (t : Trace)
      → IsGauged t
      → IsGauged (handle_addition_work kube name uid ns config shared node c t).1
  unfolding handle_addition_work create_new_pod_from_spec
  addition-IsGauged name uid ns config shared node c t h = ground arith

-- Whatever the cluster answers, and whether the call fails or not, the gauge was raised as often as
-- a Pod was created and lowered as often as a Pod was removed, if that held before.
pub handle_instance_change-IsGauged :
    (checked_add_minutes : Time → ℤ → Option Time) (kube : KubeInterface) (inst : KubeAkriInstance)
    (action : InstanceAction) (t : Trace)
    → IsGauged t
    → IsGauged (handle_instance_change checked_add_minutes kube inst action t).1
handle_instance_change-IsGauged cam kube inst action =
    change-Keeps cam kube inst action IsGauged (λ sel r t h. ground arith) (λ now t h. ground arith)
      (λ name ns r t h. ground arith)
      (λ node ctx.
        deletion-IsGauged kube inst.metadata.name inst.spec.configuration_name inst.spec.shared node
          ctx)
      (λ uid ns node c.
        addition-IsGauged kube inst.metadata.name uid ns inst.spec.configuration_name
          inst.spec.shared node c)
