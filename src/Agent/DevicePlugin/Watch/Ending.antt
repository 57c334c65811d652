-- ===== src/Agent/DevicePlugin/Watch/Ending.antt =====
-- How the task that watches an Instance ends, and what it has told the kubelet by then.
use mathlib.Core.Path.{subst}
use akri.Base.{
  String, Bool, true, false, none, List, [], ◌∷◌, Result, ok, err, ok_or, eq_iff, ◌≡◌, refl, sym,
  ap, ◌∙◌, ◌⊎◌, inl, inr, arith, Elem,
}
use akri.Base.HashMap.{get, get-remove}
use akri.Base.Loops.{bind_post, bind-eq-ok, ok_injective}
use akri.Kube.Api.{Done, KubeInterface}
use akri.Agent.DevicePlugin.{InstanceMap, DevicePluginService}
use akri.Agent.DevicePlugin.Devices.{Device, all_unhealthy}
use akri.Agent.DevicePlugin.Adverts.{IsAllUnhealthy, all_unhealthy-IsAllUnhealthy}
use akri.Agent.DevicePlugin.Creation.{try_create_instance}
use akri.Agent.DevicePlugin.Watch.{
  continue, end, Wake, timed_out, received, Turn, Watching, on_map, beside, end_server, send_list,
  send_last, wake_up, read_devices, watch_turn, watch_loop, after_create, list_and_watch,
}

module _ (dps : DevicePluginService) (kube : KubeInterface) where
  -- The agent asked for the end, and the last list has unhealthy devices only.
  abbrev pub HasTold : Turn → Watching → Type 0
  HasTold turn s =
      (turn.wake ≡ received (ok end))
      × (ds : List Device) × (older : List (List Device)) × (s.sent ≡ ds ∷ older)
      × IsAllUnhealthy dps ds

  -- The kubelet did not listen, and the map that the other tasks had from then on is without the Instance.
  abbrev pub HasLeft : Turn → Watching → Type 0
  HasLeft turn s =
      (turn.kubelet_listens ≡ false)
      × (m : InstanceMap) × (get dps.instance_name m ≡ none)
      × (s.instance_map ≡ turn.others_waiting m)

  -- The server is told to end in this turn.
  abbrev pub HasEnded : Turn → Watching → Type 0
  HasEnded turn s = (s.server_ended ≡ true) × (HasTold turn s ⊎ HasLeft turn s)

  -- Before the wait.
  abbrev IsOut : Turn → Watching → Type 0
  IsOut turn s =
      (s.server_ended ≡ true)
      × (turn.kubelet_listens ≡ false)
      × (get dps.instance_name s.instance_map ≡ none)

  end_server_lem :
      (d : Done) (s : Watching) {keep : Bool}
      → (end_server d s).0 ≡ ok keep
      → (end_server d s).1 ≡ record s { server_ended = true }
  end_server_lem (ok u) s h = refl
  end_server_lem (err e) s h = cc

  send_list-IsOut :
      (turn : Turn) (b : Bool) (ds : List Device) (s : Watching) {keep : Bool}
      → turn.kubelet_listens ≡ b
      → (send_list dps kube turn b ds s).0 ≡ ok keep
      → (keep ≡ true) ⊎ IsOut turn (send_list dps kube turn b ds s).1
  send_list-IsOut turn true ds s l h = inl (sym (ok_injective h))
  send_list-IsOut turn false ds s l h = inr (
      subst (IsOut turn) (sym (end_server_lem turn.ended_unheard _ h)) (
        refl,
        l,
        ground (
          arith,
          get-remove dps.instance_name dps.instance_name s.instance_map,
          eq_iff dps.instance_name dps.instance_name,
        ),
      ))

  send_last-HasEnded :
      (turn : Turn) (b : Bool) (s : Watching)
      → turn.wake ≡ received (ok end)
      → (send_last dps kube turn b s).0 ≡ ok false
      → HasEnded turn (send_last dps kube turn b s).1
  send_last-HasEnded turn true s w h =
      subst (HasEnded turn) (sym (end_server_lem turn.ended _ h))
        (refl, inl (w, all_unhealthy dps, s.sent, refl, all_unhealthy-IsAllUnhealthy dps))
  send_last-HasEnded turn false s w h = cc

  settled :
      (turn : Turn) (keep : Bool) (s : Watching)
      → (keep ≡ true) ⊎ IsOut turn s
      → ok keep ≡ ok false
      → HasEnded turn (beside turn.others_waiting s).1
  settled turn keep s (inl k) h = let e = ok_injective h in cc
  settled turn keep s (inr (e, l, g)) h = (e, inr (l, s.instance_map, g, refl))

  wake_up-HasEnded :
      (turn : Turn) (w : Wake) (keep : Bool) (s : Watching)
      → turn.wake ≡ w
      → (keep ≡ true) ⊎ IsOut turn s
      → (wake_up dps kube turn w keep (beside turn.others_waiting s).1).0 ≡ ok false
      → HasEnded turn (wake_up dps kube turn w keep (beside turn.others_waiting s).1).1
  wake_up-HasEnded turn (received (ok end)) keep s e k h =
      send_last-HasEnded turn turn.hears_last _ e h
  wake_up-HasEnded turn (received (ok continue)) keep s e k h = settled turn keep s k h
  wake_up-HasEnded turn (received (err m)) keep s e k h = settled turn keep s k h
  wake_up-HasEnded turn timed_out keep s e k h = settled turn keep s k h

  watch_turn-HasEnded :
      (turn : Turn) (s : Watching)
      → (watch_turn dps kube turn s).0 ≡ ok false
      → HasEnded turn (watch_turn dps kube turn s).1
  unfolding watch_turn
  watch_turn-HasEnded turn s h =
      bind_post (HasEnded turn) (on_map (read_devices dps kube turn) (beside turn.others s).1) _
        (λ response e.
          bind_post (HasEnded turn) (ok_or response "the response panicked", _) _
            λ ds e.
              bind_post (HasEnded turn) (send_list dps kube turn turn.kubelet_listens ds _) _
                λ keep e.
                  wake_up-HasEnded turn turn.wake keep _ refl
                    (send_list-IsOut turn turn.kubelet_listens ds _ refl e))
        h

  abbrev pub HasEndedIn : List Turn → Watching → Type 0
  HasEndedIn turns s = (turn : Turn) × Elem turn turns × HasEnded turn s

  watch_loop-HasEnded :
      (turns : List Turn) (s : Watching)
      → (watch_loop dps kube turns s).0 ≡ ok false
      → HasEndedIn turns (watch_loop dps kube turns s).1
  unfolding watch_loop
  watch_loop-HasEnded [] s h = let e = ok_injective h in cc
  watch_loop-HasEnded (turn ∷ turns) s h =
      let (keep, e, next) =
        bind-eq-ok (watch_turn dps kube turn s)
          (λ keep_looping. elim keep_looping [
            | true ↦ watch_loop dps kube turns
            | false ↦ λ w. (ok false, w)
          ])
          h in
      subst (λ r. HasEndedIn (turn ∷ turns) r.1) (sym next)
        (go (watch_loop-HasEnded turns (watch_turn dps kube turn s).1) keep e
          (ap (λ r. r.0) (sym next) ∙ h))
    where
      w : Watching
      w = (watch_turn dps kube turn s).1

      go :
          ((watch_loop dps kube turns w).0 ≡ ok false
            → HasEndedIn turns (watch_loop dps kube turns w).1)
          → (keep : Bool) → (watch_turn dps kube turn s).0 ≡ ok keep
          → ((elim keep as (λ b. Watching → Result Bool × Watching) [
            | true ↦ watch_loop dps kube turns
            | false ↦ λ w. (ok false, w)
          ])
              w).0
            ≡ ok false
          → HasEndedIn
              (turn ∷ turns)
              ((elim keep as (λ b. Watching → Result Bool × Watching) [
                | true ↦ watch_loop dps kube turns
                | false ↦ λ w. (ok false, w)
              ])
                w).1
      go rest true e h = let (t, i, q) = rest h in (t, inr i, q)
      go rest false e h = (turn, inl refl, watch_turn-HasEnded turn s e)

  -- A watch that ends without a panic has told its server to shut down. It ended because the Instance could
  -- not be created; or in one of its turns, in which the agent asked for the end and the last list had
  -- unhealthy devices only, one for each unit of capacity, or in which the kubelet did not listen, and
  -- the Instance was taken out of the map before the wait of that turn, in which only the other tasks
  -- change the map.
  pub list_and_watch-HasEnded :
      (unserved : Done) (turns : List Turn) (s : Watching)
      → (list_and_watch dps kube unserved turns s).0 ≡ ok false
      → HasEndedIn turns (list_and_watch dps kube unserved turns s).1
        ⊎ ((e : String) × ((try_create_instance dps kube s.instance_map s.trace).0 ≡ err e)
            × ((list_and_watch dps kube unserved turns s).1.server_ended ≡ true))
  unfolding list_and_watch
  list_and_watch-HasEnded unserved turns s =
      go (try_create_instance dps kube s.instance_map s.trace).0 refl
    where
      w : Watching
      w = record s { trace = (try_create_instance dps kube s.instance_map s.trace).1 }

      go :
          (r : Result InstanceMap)
          → (try_create_instance dps kube s.instance_map s.trace).0 ≡ r
          → (after_create dps kube unserved turns r w).0 ≡ ok false
          → HasEndedIn turns (after_create dps kube unserved turns r w).1
            ⊎ ((e : String) × ((try_create_instance dps kube s.instance_map s.trace).0 ≡ err e)
                × ((after_create dps kube unserved turns r w).1.server_ended ≡ true))
      go (ok m) e h = inl (watch_loop-HasEnded turns (record w { instance_map = m }) h)
      go (err x) e h = inr (x, e, ap (λ v. v.server_ended) (end_server_lem unserved w h))
