-- ===== src/Agent/Configurations/Handshake/Runs.antt =====
-- All interleavings of a deletion with the discovery that it stops.
use akri.Base.{ℕ, ◌+◌, Bool, true, false, none, some, ◌≡◌, refl, ◌⊎◌, inl, inr, arith, ◌↔◌, ap, ◌∙◌}
use akri.Agent.Configurations.Handshake.{
  Deleter, Discoverer, Tasks, Action, step, spawned, starting, stop_sent, subscribed, past,
  discovering, waiting, stopping, finished, failed, panicked, send_stop, subscribe, recv_finish,
  discover, fail, time_out, recv_stop, send_finish, after_send, delete_step,
}

pub data Reach : Tasks → Type 0 where
  here : Reach spawned
  next : {s t : Tasks} → Reach s → (a : Action) → step a s ≡ some t → Reach t

-- The stop message on its way.
abbrev pub IsStopping : Discoverer → Bool → Type 0
IsStopping discovering q = q ≡ true
IsStopping waiting q = q ≡ true
IsStopping stopping q = q ≡ false
IsStopping finished q = ⊥
IsStopping failed q = Unit
IsStopping panicked q = Unit

abbrev pub IsSound : Deleter → Discoverer → Bool → Bool → Type 0
IsSound starting d q f =
    (q ≡ false) × (f ≡ false) × ((d ≡ discovering) ⊎ (d ≡ waiting) ⊎ (d ≡ failed))
IsSound stop_sent d q f = IsStopping d q × (f ≡ false)
IsSound subscribed d q f = (IsStopping d q × (f ≡ false)) ⊎ ((d ≡ finished) × (f ≡ true))
IsSound past d q f = (d ≡ failed) ⊎ (d ≡ finished)

abbrev pub IsSoundAt : Tasks → Type 0
IsSoundAt s = IsSound s.deleter s.discoverer s.stop_queued s.finish_queued

step-IsSound : (a : Action) (s t : Tasks) → step a s ≡ some t → IsSoundAt s → IsSoundAt t
unfolding step
step-IsSound send_stop s t e h = ground arith
step-IsSound subscribe s t e h = ground arith
step-IsSound recv_finish s t e h = ground arith
step-IsSound discover s t e h = ground arith
step-IsSound fail s t e h = ground arith
step-IsSound time_out s t e h = ground arith
step-IsSound recv_stop s t e h = ground arith
step-IsSound send_finish s t e h = ground arith

pub Reach-IsSound : {s : Tasks} → Reach s → IsSoundAt s
Reach-IsSound here = ground arith
Reach-IsSound (next r a e) = step-IsSound a _ _ e (Reach-IsSound r)

-- The deletion waits for a discovery that will not answer.
abbrev pub IsLost : Tasks → Type 0
IsLost s = (s.deleter ≡ subscribed) × ((s.discoverer ≡ failed) ⊎ (s.discoverer ≡ panicked))

abbrev pub CanStep : Tasks → Type 0
CanStep s = (a : Action) × (t : Tasks) × (step a s ≡ some t)

-- The steps that a deletion which sent its message is away from the end.
abbrev pub steps_left : Deleter → Discoverer → ℕ
steps_left d e = of_deleter d + of_discoverer e
  where
    of_deleter : Deleter → ℕ
    of_deleter starting = 3
    of_deleter stop_sent = 2
    of_deleter subscribed = 1
    of_deleter past = 0

    of_discoverer : Discoverer → ℕ
    of_discoverer discovering = 3
    of_discoverer waiting = 2
    of_discoverer stopping = 1
    of_discoverer _ = 0

-- In every interleaving of a deletion and the discovery that it stops, once the deletion is past its wait
-- the discovery task has returned, with an error or after its answer, and neither of the two tasks has
-- a step left. Other tasks, such as the watch of an Instance, are not spoken of.
pub Reach-past :
    {s : Tasks}
    → Reach s
    → s.deleter ≡ past
    → ((s.discoverer ≡ failed) ⊎ (s.discoverer ≡ finished)) × ((a : Action) → step a s ≡ none)
unfolding step
Reach-past {s = s} r e = (ended (Reach-IsSound r), still (Reach-IsSound r))
  where
    ended : IsSoundAt s → (s.discoverer ≡ failed) ⊎ (s.discoverer ≡ finished)
    ended h = ground arith

    still : IsSoundAt s → (a : Action) → step a s ≡ none
    still h send_stop = ground arith
    still h subscribe = ground arith
    still h recv_finish = ground arith
    still h discover = ground arith
    still h fail = ground arith
    still h time_out = ground arith
    still h recv_stop = ground arith
    still h send_finish = ground arith

module _ (s : Tasks) where
  can_start : (e : Discoverer) → (t : Tasks) × (after_send e s ≡ some t)
  can_start finished = (_, refl)
  can_start failed = (_, refl)
  can_start panicked = (_, refl)
  can_start discovering = (_, refl)
  can_start waiting = (_, refl)
  can_start stopping = (_, refl)

  can_step : IsSoundAt s → CanStep s ⊎ (s.deleter ≡ past) ⊎ IsLost s
  unfolding step
  can_step h = by_deleter s.deleter refl
    where
      answered :
          s.deleter ≡ subscribed
          → (d : Discoverer) → s.discoverer ≡ d
          → CanStep s ⊎ (s.deleter ≡ past) ⊎ IsLost s
      answered e discovering g = inl (discover, record s { discoverer = waiting }, rw g refl)
      answered e waiting g =
          let q : s.stop_queued ≡ true = ground arith in
          inl (recv_stop, record s { discoverer = stopping; stop_queued = false }, rw (g, q) refl)
      answered e stopping g =
          inl
            (send_finish, record s { discoverer = finished; finish_queued = true }, rw (g, e) refl)
      answered e finished g =
          let f : s.finish_queued ≡ true = ground arith in
          inl (recv_finish, record s { deleter = past; finish_queued = false }, rw (e, f) refl)
      answered e failed g = inr (inr (e, inl g))
      answered e panicked g = inr (inr (e, inr g))

      by_deleter : (d : Deleter) → s.deleter ≡ d → CanStep s ⊎ (s.deleter ≡ past) ⊎ IsLost s
      by_deleter starting e =
          let (t, g) = can_start s.discoverer in
          inl (send_stop, t, ap (λ d. delete_step send_stop d s) e ∙ g)
      by_deleter stop_sent e =
          inl (subscribe, record s { deleter = subscribed; finish_queued = false }, rw e refl)
      by_deleter subscribed e = answered e s.discoverer refl
      by_deleter past e = inr (inl e)

  lost-stuck : IsLost s → (a : Action) → IsSoundAt s → step a s ≡ none
  unfolding step
  lost-stuck l send_stop h = ground arith
  lost-stuck l subscribe h = ground arith
  lost-stuck l recv_finish h = ground arith
  lost-stuck l discover h = ground arith
  lost-stuck l fail h = ground arith
  lost-stuck l time_out h = ground arith
  lost-stuck l recv_stop h = ground arith
  lost-stuck l send_finish h = ground arith

-- The two tasks come to a stand exactly when the deletion is past its wait, or waits for a discovery that
-- returned an error or panicked before it sent its answer; such a wait has no end.
pub Reach-stuck_iff :
    {s : Tasks} → Reach s → ((a : Action) → step a s ≡ none) ↔ ((s.deleter ≡ past) ⊎ IsLost s)
Reach-stuck_iff {s = s} r = (λ stuck. stands stuck (can_step s (Reach-IsSound r)), λ h a. still a h)
  where
    stands :
        ((a : Action) → step a s ≡ none)
        → CanStep s ⊎ (s.deleter ≡ past) ⊎ IsLost s
        → (s.deleter ≡ past) ⊎ IsLost s
    stands stuck (inl (a, t, e)) = let n = stuck a in cc
    stands stuck (inr h) = h

    still : (a : Action) → (s.deleter ≡ past) ⊎ IsLost s → step a s ≡ none
    still a (inl e) = (Reach-past r e).1 a
    still a (inr l) = lost-stuck s l a (Reach-IsSound r)
