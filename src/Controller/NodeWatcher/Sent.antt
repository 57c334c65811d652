-- ===== src/Controller/NodeWatcher/Sent.antt =====
-- An accepted update of an Instance, beside the Instance that it was made of.
use akri.Base.{String, some, [], ◌∷◌, ok, ◌≡◌, ◌⊎◌, inl}
use akri.Kube.Types.{Instance, KubeAkriInstance}
use akri.Kube.Api.{Trace, updated_instance, found_instance, got_instances}
use akri.Controller.NodeWatcher.Cleaned.{IsCleanedOf}

-- The last call was the list of Instances, or an update that was accepted: no attempt is under way.
abbrev pub IsBetween : Trace → Type 0
IsBetween (got_instances r ∷ t) = Unit
IsBetween (updated_instance i n ns (ok u) ∷ t) = Unit
IsBetween t = ⊥

-- The last call was an accepted update. It sent the listed Instance, cleaned of the node, as the first call
-- for this Instance, or the Instance that was found directly before, cleaned of the node.
pub data IsSent (v : String) (inst : KubeAkriInstance) (ns : String) : Trace → Type 0 where
  at_once :
      (after : Instance) (t : Trace)
      → IsBetween t
      → IsCleanedOf v inst.spec after
      → IsSent v inst ns (updated_instance after inst.metadata.name ns (ok tt) ∷ t)
  again :
      (i : KubeAkriInstance) (after : Instance) (t : Trace)
      → IsCleanedOf v i.spec after
      → IsSent v inst ns (
          updated_instance after inst.metadata.name ns (ok tt)
          ∷ found_instance inst.metadata.name ns (ok i)
          ∷ t)

-- At some time of the trace.
abbrev pub AtSomeTime : (Trace → Type 0) → Trace → Type 0
AtSomeTime P [] = P []
AtSomeTime P (e ∷ t) = P (e ∷ t) ⊎ AtSomeTime P t

pub now-AtSomeTime : (P : Trace → Type 0) (t : Trace) → P t → AtSomeTime P t
now-AtSomeTime P [] p = p
now-AtSomeTime P (e ∷ t) p = inl p

pub IsSent-IsBetween :
    {v : String} {inst : KubeAkriInstance} {ns : String} {t : Trace}
    → IsSent v inst ns t
    → IsBetween t
IsSent-IsBetween (at_once after t b c) = tt
IsSent-IsBetween (again i after t c) = tt

abbrev pub WasCleaned : String → KubeAkriInstance → Trace → Type 0
WasCleaned v inst t =
    (ns : String) × (inst.metadata.namespace ≡ some ns) × AtSomeTime (IsSent v inst ns) t
