-- ===== src/Agent/Configurations/Handshake/Bound.antt =====
-- How long a deletion and its discovery go on after the stop message.
use akri.Base.{ℕ, suc, ◌+◌, ◌≤◌, some, ◌≡◌, ◌≢◌, arith}
use akri.Agent.Configurations.Handshake.{
  Deleter, Discoverer, Tasks, Action, step, starting, stop_sent, subscribed, past, discovering,
  waiting, stopping, send_stop, subscribe, recv_finish, discover, fail, time_out, recv_stop,
  send_finish,
}
use akri.Agent.Configurations.Handshake.Runs.{Reach, next, IsSoundAt, Reach-IsSound}

-- `n` steps of either task.
pub data Run : ℕ → Tasks → Tasks → Type 0 where
  done : {s : Tasks} → Run 0 s s
  more : {n : ℕ} {s t u : Tasks} → (a : Action) → step a s ≡ some t → Run n t u → Run (suc n) s u

-- The steps that each task may still take.
abbrev deleter_steps : Deleter → ℕ
deleter_steps starting = 3
deleter_steps stop_sent = 2
deleter_steps subscribed = 1
deleter_steps past = 0

abbrev discoverer_steps : Discoverer → ℕ
discoverer_steps discovering = 3
discoverer_steps waiting = 2
discoverer_steps stopping = 1
discoverer_steps _ = 0

abbrev steps_left : Tasks → ℕ
steps_left s = deleter_steps s.deleter + discoverer_steps s.discoverer

step-steps_left :
    (a : Action) (s t : Tasks)
    → step a s ≡ some t
    → s.deleter ≢ starting
    → IsSoundAt s
    → (suc (steps_left t) ≤ steps_left s) × (t.deleter ≢ starting)
unfolding step
step-steps_left send_stop s t e n h = ground arith
step-steps_left subscribe s t e n h = ground arith
step-steps_left recv_finish s t e n h = ground arith
step-steps_left discover s t e n h = ground arith
step-steps_left fail s t e n h = ground arith
step-steps_left time_out s t e n h = ground arith
step-steps_left recv_stop s t e n h = ground arith
step-steps_left send_finish s t e n h = ground arith

Run-steps_left :
    {n : ℕ} {s t : Tasks}
    → Reach s
    → s.deleter ≢ starting
    → Run n s t
    → n + steps_left t ≤ steps_left s
Run-steps_left r l done = omega arith
Run-steps_left r l (more a e run) =
    let (less, later) = step-steps_left a _ _ e l (Reach-IsSound r) in
    let rest = Run-steps_left (next r a e) later run in omega (arith, less, rest)

-- From the stop message on, no interleaving of the two tasks goes on for more than five steps.
pub steps_left_bound : {n : ℕ} {s t : Tasks} → Reach s → s.deleter ≢ starting → Run n s t → n ≤ 5
steps_left_bound {s = s} r l run =
    let most : steps_left s ≤ 5 = ground arith in omega (arith, most, Run-steps_left r l run)
