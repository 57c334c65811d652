-- ===== src/Agent/Connectivity/Transitions.antt =====
-- The status of an Instance before and after one step of a discovery.
use mathlib.Core.Path.{subst}
use akri.Base.{
  ◌-◌, ◌<◌, ◌≤◌, String, Bool, true, false, Option, none, some, ◌∷◌, bind_result, ◌==◌, eq_iff,
  if◌then◌else◌, ◌≡◌, refl, sym, arith, inl, inr, ◌⊎◌, pure,
}
use akri.Base.HashMap.{get, get-insert, get-remove}
use akri.Base.Loops.{Keeps, Keeps-bind, Keeps-if}
use akri.Kube.Types.{Time}
use akri.Kube.Api.{Trace, KubeInterface, instant_now, read_instant}
use akri.Agent.DevicePlugin.{ConnectivityStatus, online, offline, InstanceInfo}
use akri.Agent.DevicePlugin.Creation.{terminate_device_plugin_service, terminate_known}
use akri.Agent.Connectivity.{
  Discovery, on_trace, set_map, is_overdue, end_instance, update_one, try_delete_instance,
}

abbrev pub info : ConnectivityStatus → Option InstanceInfo
info status = some (record { connectivity_status = status })

-- How the entry of an Instance may change, by whether the discovery saw it, with a clock that reads at
-- least `early` and at most `late`.
pub data Moves (shared : Bool) (early late : Time)
    : Bool → Option InstanceInfo → Option InstanceInfo → Type 0 where
  absent : (visible : Bool) → Moves shared early late visible none none
  stays_online : Moves shared early late true (info online) (info online)
  comes_back :
      (instant : Time) → Moves shared early late true (info (offline instant)) (info online)
  goes_offline :
      (now : Time)
      → early ≤ now
      → now ≤ late
      → Moves shared early late false (info online) (info (offline now))
  waits :
      (instant : Time)
      → shared ≡ true
      → early - instant < 300
      → Moves shared early late false (info (offline instant)) (info (offline instant))
  ends :
      (instant : Time)
      → (shared ≡ false) ⊎ (300 ≤ late - instant)
      → Moves shared early late false (info (offline instant)) none

overdue_lem :
    (shared : Bool) (t now late : Time)
    → now ≤ late
    → is_overdue shared t now ≡ true
    → (shared ≡ false) ⊎ (300 ≤ late - t)
overdue_lem false t now late l h = inl refl
overdue_lem true t now late l h = let b : 300 ≤ now - t = ground arith in inr (omega (arith, b, l))

pending_lem :
    (shared : Bool) (t now early : Time)
    → early ≤ now
    → is_overdue shared t now ≡ false
    → (shared ≡ true) × (early - t < 300)
pending_lem false t now early l h = cc
pending_lem true t now early l h =
    let b : now - t < 300 = ground arith in (refl, omega (arith, b, l))

-- Every reading of the clock lies in the interval.
abbrev pub IsTimed : KubeInterface → Time → Time → Type 0
IsTimed kube early late = (t : Trace) → (early ≤ kube.instant_now t) × (kube.instant_now t ≤ late)

module _ (kube : KubeInterface) (ns : String) (shared : Bool) (early late : Time)
    (clock : IsTimed kube early late) where
  module _ (k : String) (o : Option InstanceInfo) where
    abbrev pub Other : Discovery → Type 0
    Other s = get k s.instance_map ≡ o

    end-Other :
        (name : String) → (name == k) ≡ false → Keeps Other (end_instance kube ns shared name)
    unfolding terminate_device_plugin_service
    end-Other name ne s h = go (get name s.instance_map)
      where
        go :
            (q : Option InstanceInfo)
            → get k
                (bind_result (on_trace (terminate_known name s.instance_map q) s) (λ left w.
                  bind_result
                    (set_map left w)
                    (λ u. on_trace (try_delete_instance kube name ns)))).1.instance_map
              ≡ o
        go none = h
        go (some i) = ground (arith, get-remove name k s.instance_map)

    pub update-Other :
        (name : String) (visible : Bool) (status : ConnectivityStatus)
        → (name == k) ≡ false
        → Keeps Other (update_one kube ns shared name visible status)
    update-Other name true online ne = λ s h. h
    update-Other name true (offline t) ne = λ s h.
        ground (arith, get-insert name k (record { connectivity_status = online }) s.instance_map)
    update-Other name false online ne = λ s h. ground (
      arith,
      get-insert name k (record { connectivity_status = offline (kube.instant_now s.trace) })
          s.instance_map,
    )
    update-Other name false (offline t) ne =
        Keeps-bind Other (on_trace (instant_now kube))
          (λ now. if is_overdue shared t now then end_instance kube ns shared name else pure tt)
          (λ s h. h)
          (λ now.
            Keeps-if Other (is_overdue shared t now) (end_instance kube ns shared name) (pure tt)
              (end-Other name ne) (λ s h. h))

  end_self :
      (name : String) (i : InstanceInfo) (s : Discovery)
      → get name s.instance_map ≡ some i
      → get name (end_instance kube ns shared name s).1.instance_map ≡ none
  unfolding terminate_device_plugin_service
  end_self name i s h = go (get name s.instance_map) h
    where
      go :
          (q : Option InstanceInfo)
          → q ≡ some i
          → get name
              (bind_result (on_trace (terminate_known name s.instance_map q) s) (λ left w.
                bind_result
                  (set_map left w)
                  (λ u. on_trace (try_delete_instance kube name ns)))).1.instance_map
            ≡ none
      go none h = cc
      go (some j) h = ground (arith, get-remove name name s.instance_map, eq_iff name name)

  pub arrive :
      (visible : Bool) (before after after' : Option InstanceInfo)
      → after' ≡ after
      → Moves shared early late visible before after
      → Moves shared early late visible before after'
  arrive visible before after after' e m = subst (Moves shared early late visible before) (sym e) m

  pub update-Moves :
      (name : String) (visible : Bool) (status : ConnectivityStatus) (s : Discovery)
      → get name s.instance_map ≡ info status
      → Moves shared early late visible
          (info status)
          (get name (update_one kube ns shared name visible status s).1.instance_map)
  update-Moves name true online s h = rw h stays_online
  update-Moves name true (offline t) s h =
      rw (get-insert name name (record { connectivity_status = online }) s.instance_map)
        (rw ((eq_iff name name).1 refl) (comes_back t))
  update-Moves name false online s h =
      rw
        (get-insert name name (record { connectivity_status = offline (kube.instant_now s.trace) })
          s.instance_map)
        (rw ((eq_iff name name).1 refl)
          (goes_offline (kube.instant_now s.trace) (clock s.trace).0 (clock s.trace).1))
  update-Moves name false (offline t) s h = go (is_overdue shared t (kube.instant_now s.trace)) refl
    where
      after : Discovery
      after = record s { trace = read_instant (kube.instant_now s.trace) ∷ s.trace }

      go :
          (b : Bool)
          → is_overdue shared t (kube.instant_now s.trace) ≡ b
          → Moves shared early late false (info (offline t)) (
              get name
                ((if b then end_instance kube ns shared name else pure tt) after).1.instance_map)
      go true e =
          arrive false _ none _ (end_self name _ after h)
            (ends t (overdue_lem shared t (kube.instant_now s.trace) late (clock s.trace).1 e))
      go false e =
          let (q, l) = pending_lem shared t (kube.instant_now s.trace) early (clock s.trace).0 e in
          rw h (waits t q l)
