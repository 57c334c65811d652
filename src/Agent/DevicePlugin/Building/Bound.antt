-- ===== src/Agent/DevicePlugin/Building/Bound.antt =====
-- The test of the server ends.
use akri.Base.{
  ℕ, zero, suc, ◌+◌, ◌≤◌, ◌<◌, String, Bool, true, false, some, List, ok, ltb, ◌≡◌, refl, arith,
  inl, inr, Bool-cases,
}
use akri.Agent.DevicePlugin.{DevicePluginService}
use akri.Agent.DevicePlugin.Building.{Message, Host, await_server, connection_test_secs, serve}

module _ (now : ℕ → ℕ) (connects : ℕ → Bool) (deadline : ℕ)
    (goes_on : (i : ℕ) → now i < now (suc i)) where
  await_server_total :
      (fuel i : ℕ)
      → deadline ≤ now i + fuel
      → (connected : Bool) × (await_server now connects deadline (suc fuel) i ≡ some connected)
  unfolding await_server
  await_server_total zero i l = elim (Bool-cases (ltb (now i) deadline)) [
    | inr late ↦ (false, rw late refl)
    | inl early ↦ let over : ⊥ = ground arith in elim over [ ]
  ]
  await_server_total (suc fuel) i l =
      let (connected, same) = await_server_total fuel (suc i) (omega (arith, l, goes_on i)) in
      elim (Bool-cases (ltb (now i) deadline)) [
        | inr late ↦ (false, rw late refl)
        | inl early ↦ elim (Bool-cases (connects i)) [
          | inl reached ↦ (true, rw (early, reached) refl)
          | inr failed ↦ (connected, rw (early, failed) same)
        ]
      ]

-- Once the socket is bound, the test of a new server ends after at most eleven readings of the clock, which
-- goes on by a second or more with each failed attempt.
pub serve_total :
    (host : Host) (service : DevicePluginService) (socket_path : String) (sent : List Message)
    → host.bound ≡ ok tt
    → host.start ≤ host.now 0
    → ((i : ℕ) → host.now i < host.now (suc i))
    → (connected : Bool) × ((serve host service socket_path sent).0 ≡ ok (some connected))
unfolding serve
serve_total host service socket_path sent b l goes_on =
    let (connected, same) =
      await_server_total host.now host.connects (host.start + connection_test_secs) goes_on 10 0
        (omega (arith, l)) in
    (connected, rw (b, same) refl)
