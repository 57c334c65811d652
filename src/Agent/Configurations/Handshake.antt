-- ===== src/Agent/Configurations/Handshake.antt =====
-- agent/src/util/config_action.rs: how `handle_config_delete` stops `do_periodic_discovery`, two tasks that
-- a scheduler interleaves. A step is what a task does between two points at which the other can act. The
-- stop channel has room for one message, and its receiver is dropped with the discovery; the Configuration
-- keeps a sender of the finish channel, so that one is never closed while the deletion waits.
pub mod Runs
pub mod Bound
use akri.Base.{Bool, true, false, Option, none, some}

-- Where `handle_config_delete` is: before its message, before its subscription, at its wait, or past it.
pub data Deleter : Type 0 where
  starting stop_sent subscribed past : Deleter

-- Where `do_periodic_discovery` is: in a discovery, in the wait of ten seconds, or after the stop
-- message; or it has returned, with or without an error, or has panicked.
pub data Discoverer : Type 0 where
  discovering waiting stopping finished failed panicked : Discoverer

-- `stop_queued` and `finish_queued` are the messages that were sent and not yet received.
pub record Tasks : Type 0 where
  pub deleter : Deleter
  pub discoverer : Discoverer
  pub stop_queued : Bool
  pub finish_queued : Bool

pub data Action : Type 0 where
  send_stop subscribe recv_finish : Action
  discover fail time_out recv_stop send_finish : Action

-- `send` is refused when the receiver was dropped, and the deletion goes on without a wait.
abbrev pub after_send : Discoverer → Tasks → Option Tasks
after_send finished s = some (record s { deleter = past })
after_send failed s = some (record s { deleter = past })
after_send panicked s = some (record s { deleter = past })
after_send d s = some (record s { deleter = stop_sent; stop_queued = true })

-- `send(()).unwrap()` panics when nobody has subscribed.
abbrev pub after_finish : Deleter → Tasks → Option Tasks
after_finish subscribed s = some (record s { discoverer = finished; finish_queued = true })
after_finish d s = some (record s { discoverer = panicked })

abbrev pub delete_step : Action → Deleter → Tasks → Option Tasks
delete_step send_stop starting s = after_send s.discoverer s
delete_step subscribe stop_sent s = some (record s { deleter = subscribed; finish_queued = false })
delete_step recv_finish subscribed s = elim s.finish_queued [
  | true ↦ some (record s { deleter = past; finish_queued = false })
  | false ↦ none
]
delete_step a d s = none

-- An error of the discovery, or of the update after it, ends the task. A message that is there is
-- received before the time is looked at.
abbrev pub discover_step : Action → Discoverer → Tasks → Option Tasks
discover_step discover discovering s = some (record s { discoverer = waiting })
discover_step fail discovering s = some (record s { discoverer = failed; stop_queued = false })
discover_step time_out waiting s = elim s.stop_queued [
  | true ↦ none
  | false ↦ some (record s { discoverer = discovering })
]
discover_step recv_stop waiting s = elim s.stop_queued [
  | true ↦ some (record s { discoverer = stopping; stop_queued = false })
  | false ↦ none
]
discover_step send_finish stopping s = after_finish s.deleter s
discover_step a d s = none

abbrev pub is_of_deletion : Action → Bool
is_of_deletion send_stop = true
is_of_deletion subscribe = true
is_of_deletion recv_finish = true
is_of_deletion a = false

-- One step of the task that the action belongs to; `none` if the task cannot take it.
unfoldable pub step : Action → Tasks → Option Tasks
step a s = elim (is_of_deletion a) [
  | true ↦ delete_step a s.deleter s
  | false ↦ discover_step a s.discoverer s
]

-- The discovery was spawned, and the deletion begins at any point of it.
abbrev pub spawned : Tasks
spawned = record {
  deleter = starting;
  discoverer = discovering;
  stop_queued = false;
  finish_queued = false;
}
