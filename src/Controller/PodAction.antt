-- ===== src/Controller/PodAction.antt =====
-- controller/src/util/pod_action.rs: what to do with a broker Pod, by the event of its Instance, its
-- phase, its start time and whether the Instance lists its node. A method takes the time that
-- `Utc::now()` returns to it.
pub mod Choice
use akri.Base.{
  String, Bool, true, false, Option, none, some, Result, ok, err, ltb, if◌then◌else◌, ◌||◌, ◌==◌,
}
use akri.Kube.Types.{ℤ, Time}

pub data InstanceAction : Type 0 where
  add remove update : InstanceAction

pub data PodAction : Type 0 where
  add remove remove_and_add no_action : PodAction

pub record PodActionInfo : Type 0 where
  pub pending_grace_time_in_minutes : ℤ
  pub ended_grace_time_in_minutes : ℤ
  pub phase : String
  pub instance_action : InstanceAction
  pub status_start_time : Option Time
  pub unknown_node : Bool
  pub trace_node_name : String

-- `checked_add_signed` of `chrono`, applied to a number of minutes; `none` is an overflow.
module _ (checked_add_minutes : Time → ℤ → Option Time) where
  pub time_choice_for_non_running_pods : PodActionInfo → Time → ℤ → Result PodAction
  time_choice_for_non_running_pods p now grace_period = elim p.status_start_time [
    | none ↦ ok PodAction.no_action
    | some start_time ↦ elim (checked_add_minutes start_time grace_period) [
      | none ↦ err "checked_add_signed failed"
      | some time_limit ↦
          if ltb now time_limit then ok PodAction.no_action else ok PodAction.remove_and_add
    ]
  ]

  pub choice_for_running_pods : PodActionInfo → Result PodAction
  choice_for_running_pods p = elim p.instance_action [
    | InstanceAction.remove ↦ ok PodAction.remove
    | _ ↦ ok PodAction.no_action
  ]

  pub choice_for_non_running_pods : PodActionInfo → Time → ℤ → Result PodAction
  choice_for_non_running_pods p now grace_period = elim p.instance_action [
    | InstanceAction.remove ↦ ok PodAction.remove
    | _ ↦ time_choice_for_non_running_pods p now grace_period
  ]

  pub choice_for_pods_on_known_nodes : PodActionInfo → Time → Result PodAction
  choice_for_pods_on_known_nodes p now =
      if p.phase == "Running" || (p.phase == "ContainerCreating" || p.phase == "PodInitializing")
      then choice_for_running_pods p
      else if p.phase == "Pending"
      then choice_for_non_running_pods p now p.pending_grace_time_in_minutes
      else choice_for_non_running_pods p now p.ended_grace_time_in_minutes

  pub choice_for_pod_action : PodActionInfo → Time → Result PodAction
  choice_for_pod_action p now =
      if p.unknown_node then ok PodAction.remove else choice_for_pods_on_known_nodes p now

  unfoldable pub select_pod_action : PodActionInfo → Time → Result PodAction
  unfolding choice_for_pod_action choice_for_pods_on_known_nodes choice_for_running_pods
      choice_for_non_running_pods time_choice_for_non_running_pods
  select_pod_action p now = choice_for_pod_action p now
