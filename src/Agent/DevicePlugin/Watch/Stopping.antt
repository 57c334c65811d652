-- ===== src/Agent/DevicePlugin/Watch/Stopping.antt =====
-- When the loop that watches an Instance stops.
use mathlib.Core.Path.{subst}
use akri.Base.{
  Bool, true, false, List, [], ◌∷◌, ◌++◌, Result, ok, err, ok_or, bind_result, ◌≡◌, ◌≢◌, refl, sym,
  ◌⊎◌, inl, inr,
}
use akri.Base.Loops.{bind_post, ok_injective}
use akri.Kube.Api.{Done, KubeInterface}
use akri.Agent.DevicePlugin.{DevicePluginService}
use akri.Agent.DevicePlugin.Devices.{Device}
use akri.Agent.DevicePlugin.Watch.{
  end, Wake, received, Turn, Watching, on_map, beside, end_server, send_list, send_last, wake_up,
  read_devices, watch_turn, watch_loop,
}

-- The agent asks for the end, or the kubelet does not listen.
abbrev pub IsLastTurn : Turn → Type 0
IsLastTurn turn = (turn.wake ≡ received (ok end)) ⊎ (turn.kubelet_listens ≡ false)

module _ (dps : DevicePluginService) (kube : KubeInterface) where
  end_server_stops : (d : Done) (s : Watching) → (end_server d s).0 ≢ ok true
  end_server_stops (ok u) s h = let e = ok_injective h in cc
  end_server_stops (err e) s h = cc

  send_last_stops :
      (turn : Turn) (b : Bool) (s : Watching) → (send_last dps kube turn b s).0 ≢ ok true
  send_last_stops turn true s h = end_server_stops turn.ended _ h
  send_last_stops turn false s h = cc

  end_server-false :
      (d : Done) (s : Watching) {keep : Bool} → (end_server d s).0 ≡ ok keep → keep ≡ false
  end_server-false (ok u) s h = sym (ok_injective h)
  end_server-false (err e) s h = cc

  wake_up_stops :
      (turn : Turn) (w : Wake) (s : Watching) → (wake_up dps kube turn w false s).0 ≢ ok true
  wake_up_stops turn (received (ok end)) s h = send_last_stops turn turn.hears_last s h
  wake_up_stops turn _ s h = let e = ok_injective h in cc

  -- After the list was sent, or not.
  sent_stops :
      (turn : Turn) (ds : List Device) (s : Watching) (keep : Bool)
      → IsLastTurn turn
      → (send_list dps kube turn turn.kubelet_listens ds s).0 ≡ ok keep
      → (w : Watching) → (wake_up dps kube turn turn.wake keep w).0 ≢ ok true
  sent_stops turn ds s keep (inl asked) e w h =
      send_last_stops turn turn.hears_last w
        (subst (λ k. (wake_up dps kube turn k keep w).0 ≡ ok true) asked h)
  sent_stops turn ds s keep (inr deaf) e w h =
      let over : keep ≡ false =
        end_server-false turn.ended_unheard _
          (subst (λ b. (send_list dps kube turn b ds s).0 ≡ ok keep) deaf e) in
      wake_up_stops turn turn.wake w
        (subst (λ k. (wake_up dps kube turn turn.wake k w).0 ≡ ok true) over h)

  watch_turn_stops :
      (turn : Turn) (s : Watching) → IsLastTurn turn → (watch_turn dps kube turn s).0 ≢ ok true
  unfolding watch_turn
  watch_turn_stops turn s last h =
      bind_post (λ w. ⊥) (on_map (read_devices dps kube turn) (beside turn.others s).1) _
        (λ response e.
          bind_post (λ w. ⊥) (ok_or response "the response panicked", _) _
            λ ds e.
              bind_post (λ w. ⊥) (send_list dps kube turn turn.kubelet_listens ds _) _
                λ keep e. sent_stops turn ds _ keep last e _)
        h

  abbrev after_turn : Result Bool × Watching → List Turn → Result Bool × Watching
  after_turn r turns = bind_result r λ keep. elim keep as (λ b. Watching → Result Bool × Watching) [
    | true ↦ watch_loop dps kube turns
    | false ↦ λ w. (ok false, w)
  ]

  last_stops :
      (r : Result Bool × Watching) (turns : List Turn)
      → r.0 ≢ ok true
      → (after_turn r turns ≡ after_turn r []) × ((after_turn r turns).0 ≢ ok true)
  last_stops (ok true, s) turns h = absurd (h refl)
  last_stops (ok false, s) turns h = (refl, λ e. let q = ok_injective e in cc)
  last_stops (err e, s) turns h = (refl, λ q. cc)

  earlier_stops :
      (r : Result Bool × Watching) (long short : List Turn)
      → ((s : Watching)
          → (watch_loop dps kube long s ≡ watch_loop dps kube short s)
            × ((watch_loop dps kube long s).0 ≢ ok true))
      → (after_turn r long ≡ after_turn r short) × ((after_turn r long).0 ≢ ok true)
  earlier_stops (ok true, s) long short h = h s
  earlier_stops (ok false, s) long short h = (refl, λ e. let q = ok_injective e in cc)
  earlier_stops (err e, s) long short h = (refl, λ q. cc)

  -- The loop does not go on after a turn in which the agent asks for the end or the kubelet does not
  -- listen: it has ended by then, and what would follow changes nothing.
  pub watch_loop_stops :
      (before after : List Turn) (turn : Turn) (s : Watching)
      → (turn.wake ≡ received (ok end)) ⊎ (turn.kubelet_listens ≡ false)
      → (watch_loop dps kube (before ++ turn ∷ after) s
          ≡ watch_loop dps kube (before ++ turn ∷ []) s)
        × ((watch_loop dps kube (before ++ turn ∷ after) s).0 ≢ ok true)
  unfolding watch_loop
  watch_loop_stops [] after turn s h =
      last_stops (watch_turn dps kube turn s) after (watch_turn_stops turn s h)
  watch_loop_stops (first ∷ before) after turn s h =
      earlier_stops (watch_turn dps kube first s) (before ++ turn ∷ after) (before ++ turn ∷ [])
        (λ w. watch_loop_stops before after turn w h)
