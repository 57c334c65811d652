-- ===== src/Agent/Configurations/Periodic/Ending.antt =====
-- When the discovery of a Configuration returns, and in which state.
use mathlib.Core.Path.{subst}
use akri.Base.{
  String, Bool, true, false, List, [], ◌∷◌, ◌++◌, Result, ok, err, bind_result, for_each, ◌≡◌, ◌↔◌,
  ◌⊎◌, inl, inr, Bool-cases, refl, sym, ap, All,
}
use akri.Base.Loops.{ok_injective}
use akri.Kube.Api.{Done, KubeInterface}
use akri.Agent.Connectivity.{Discovery}
use akri.Agent.Configurations.Periodic.{
  Round, discovery_round, finish_discovery, do_periodic_discovery,
}

module _ (kube : KubeInterface) (config_name ns : String) (shared : Bool) where
  abbrev run : List Round → Discovery → Result Bool × Discovery
  run = do_periodic_discovery kube config_name ns shared

  abbrev work : List Round → Discovery → Done × Discovery
  work rounds = for_each rounds (discovery_round kube config_name ns shared)

  -- The rounds up to the first stop message were worked through without an error, and left this state, and
  -- the answer to the message was heard.
  pub record HasReturned (rounds : List Round) (s w : Discovery) : Type 0 where
    pub before : List Round
    pub last : Round
    pub after : List Round
    pub split : rounds ≡ before ++ last ∷ after
    pub unstopped : All (λ round. round.stop_received ≡ false) before
    pub stopped : last.stop_received ≡ true
    pub heard : last.finish_heard ≡ ok tt
    pub worked : work (before ++ last ∷ []) s ≡ (ok tt, w)

  abbrev after_round : Result (Unit {0}) × Discovery → Round → List Round → Result Bool × Discovery
  after_round r round rounds = bind_result r λ u. elim round.stop_received [
    | true ↦ finish_discovery round.finish_heard
    | false ↦ run rounds
  ]

  abbrev work_after : Done × Discovery → List Round → Done × Discovery
  work_after r rounds = bind_result r (λ u. work rounds)

  finish_heard :
      (heard : Done) (s w : Discovery)
      → finish_discovery heard s ≡ (ok true, w)
      → (heard ≡ ok tt) × (s ≡ w)
  finish_heard (ok u) s w h = (refl, ap (λ q. q.1) h)
  finish_heard (err e) s w h = let f = ap (λ q. q.0) h in cc

  -- The first round is the last one, or the rest returned.
  first_round :
      (r : Done × Discovery) (round : Round) (rounds : List Round) (w : Discovery)
      → after_round r round rounds ≡ (ok true, w)
      → ((round.stop_received ≡ true)
          × (round.finish_heard ≡ ok tt)
          × (work_after r [] ≡ (ok tt, w)))
        ⊎ ((round.stop_received ≡ false) × (r.0 ≡ ok tt) × (run rounds r.1 ≡ (ok true, w)))
  unfolding for_each
  first_round (err e, s) round rounds w h = let f = ap (λ q. q.0) h in cc
  first_round (ok u, s) round rounds w h = elim (Bool-cases round.stop_received) [
    | inl e ↦
        let (heard, same) = finish_heard round.finish_heard s w (rw e at h) in
        inl (e, heard, ap (λ x. (ok tt, x)) same)
    | inr e ↦ inr (e, refl, rw e at h)
  ]

  work_first :
      (r : Done × Discovery) (rounds : List Round) (w : Discovery)
      → r.0 ≡ ok tt
      → work rounds r.1 ≡ (ok tt, w)
      → work_after r rounds ≡ (ok tt, w)
  work_first (ok u, s) rounds w e h = h
  work_first (err m, s) rounds w e h = cc

  returned :
      (rounds : List Round) (s w : Discovery) → run rounds s ≡ (ok true, w) → HasReturned rounds s w
  unfolding do_periodic_discovery for_each
  returned [] s w h = let e = ok_injective (ap (λ q. q.0) h) in cc
  returned (round ∷ rounds) s w h =
      elim (first_round (discovery_round kube config_name ns shared round s) round rounds w h) [
        | inl (stop, heard, done) ↦ record {
          before = [];
          last = round;
          after = rounds;
          split = refl;
          unstopped = tt;
          stopped = stop;
          heard = heard;
          worked = done;
        }
        | inr (e, good, more) ↦
            let rest = returned rounds _ w more in
            record {
              before = round ∷ rest.before;
              last = rest.last;
              after = rest.after;
              split = ap (λ rs. round ∷ rs) rest.split;
              unstopped = (e, rest.unstopped);
              stopped = rest.stopped;
              heard = rest.heard;
              worked = work_first _ (rest.before ++ rest.last ∷ []) w good rest.worked;
            }
      ]

  last_returns :
      (r : Done × Discovery) (round : Round) (rounds : List Round) (w : Discovery)
      → round.stop_received ≡ true
      → round.finish_heard ≡ ok tt
      → work_after r [] ≡ (ok tt, w)
      → after_round r round rounds ≡ (ok true, w)
  unfolding for_each
  last_returns (ok u, s) round rounds w e heard h =
      rw (e, heard) (ap (λ x. (ok true, x)) (ap (λ q. q.1) h))
  last_returns (err m, s) round rounds w e heard h = let f = ap (λ q. q.0) h in cc

  earlier_returns :
      (r : Done × Discovery) (round : Round) (rounds more : List Round) (w : Discovery)
      → round.stop_received ≡ false
      → work_after r rounds ≡ (ok tt, w)
      → ((s : Discovery) → work rounds s ≡ (ok tt, w) → run more s ≡ (ok true, w))
      → after_round r round more ≡ (ok true, w)
  earlier_returns (ok u, s) round rounds more w e h rest = rw e (rest s h)
  earlier_returns (err m, s) round rounds more w e h rest = let f = ap (λ q. q.0) h in cc

  returns :
      (before after : List Round) (last : Round) (s w : Discovery)
      → All (λ round. round.stop_received ≡ false) before
      → last.stop_received ≡ true
      → last.finish_heard ≡ ok tt
      → work (before ++ last ∷ []) s ≡ (ok tt, w)
      → run (before ++ last ∷ after) s ≡ (ok true, w)
  unfolding do_periodic_discovery for_each
  returns [] after last s w u e heard h = last_returns _ last after w e heard h
  returns (round ∷ before) after last s w (q, u) e heard h =
      earlier_returns (discovery_round kube config_name ns shared round s) round
        (before ++ last ∷ []) (before ++ last ∷ after) w q h
        (λ x k. returns before after last x w u e heard k)

  -- The discovery of a Configuration returns without an error exactly if a round receives the stop message
  -- and its answer to it is heard, and the rounds up to the first such message, worked through in order,
  -- met no error. It then leaves the state of those rounds: the later ones are not begun.
  pub do_periodic_discovery_returned_iff :
      (rounds : List Round) (s w : Discovery)
      → (do_periodic_discovery kube config_name ns shared rounds s ≡ (ok true, w))
        ↔ HasReturned rounds s w
  do_periodic_discovery_returned_iff rounds s w = (
    returned rounds s w,
    λ h.
        subst (λ rs. run rs s ≡ (ok true, w)) (sym h.split)
          (returns h.before h.after h.last s w h.unstopped h.stopped h.heard h.worked),
  )
