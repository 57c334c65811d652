-- ===== src/Kube/Client/Outcome.antt =====
-- When a call of the cluster that changes something succeeds.
use mathlib.Core.Path.{subst}
use akri.Base.{ℕ, String, ◌∷◌, ok, nat_eq, ◌≡◌, ◌↔◌, refl, ap, arith, ◌⊎◌, inl, inr, Bool-cases}
use akri.Kube.Types.{Time, Pod, Service, ServiceObject, Instance, KubeAkriInstance}
use akri.Kube.Api.{Trace, Done, KubeInterface, found_instance}
use akri.Kube.Client.{
  KubeError, api, other, Answer, response, refused, ApiClient, message, pass_on, tolerate,
  after_post, owned_instance, patch_found, kube_impl,
}

-- The calls that change the cluster.
pub data Write : Type 0 where
  create_pod : Pod → String → Write
  remove_pod : String → String → Write
  create_service : Service → String → Write
  remove_service : String → String → Write
  update_service : ServiceObject → String → String → Write
  create_instance : Instance → String → String → String → String → Write
  delete_instance : String → String → Write
  update_instance : Instance → String → String → Write

abbrev pub perform : KubeInterface → Trace → Write → Done
perform kube t (Write.create_pod p ns) = kube.create_pod t p ns
perform kube t (Write.remove_pod n ns) = kube.remove_pod t n ns
perform kube t (Write.create_service s ns) = kube.create_service t s ns
perform kube t (Write.remove_service n ns) = kube.remove_service t n ns
perform kube t (Write.update_service s n ns) = kube.update_service t s n ns
perform kube t (Write.create_instance i n ns c u) = kube.create_instance t i n ns c u
perform kube t (Write.delete_instance n ns) = kube.delete_instance t n ns
perform kube t (Write.update_instance i n ns) = kube.update_instance t i n ns

-- The server did what was asked.
abbrev pub WasAccepted : Answer (Unit {0}) → Type 0
WasAccepted a = a ≡ response tt

-- The server refused with this code.
abbrev pub WasRefused : ℕ → Answer (Unit {0}) → Type 0
WasRefused code a = (m : String) × (a ≡ refused (api code m))

module _ (client : ApiClient) (t : Trace) where
  -- The answers that count as a success.
  abbrev pub Succeeds : Write → Type 0
  Succeeds (Write.create_pod p ns) =
      let a = client.post_pod t p ns in WasAccepted a ⊎ WasRefused 409 a
  Succeeds (Write.remove_pod n ns) =
      let a = client.delete_pod t n ns in WasAccepted a ⊎ WasRefused 404 a
  Succeeds (Write.create_service s ns) =
      let a = client.post_service t s ns in WasAccepted a ⊎ ((code : ℕ) × WasRefused code a)
  Succeeds (Write.remove_service n ns) =
      let a = client.delete_service t n ns in WasAccepted a ⊎ WasRefused 404 a
  Succeeds (Write.update_service s n ns) = WasAccepted (client.patch_service t s n ns)
  Succeeds (Write.create_instance i n ns c u) =
      WasAccepted (client.post_instance t (owned_instance i n c u) ns)
  Succeeds (Write.delete_instance n ns) = WasAccepted (client.delete_instance t n ns)
  Succeeds (Write.update_instance i n ns) =
      (existing : KubeAkriInstance) × (client.get_instance t n ns ≡ response existing)
      × WasAccepted (
          client.patch_instance (found_instance n ns (ok existing) ∷ t)
            (record { metadata = existing.metadata; spec = i }) n ns)

pass_on_iff : (a : Answer (Unit {0})) → (pass_on a ≡ ok tt) ↔ WasAccepted a
pass_on_iff (response u) = (λ _. refl, λ _. refl)
pass_on_iff (refused e) = (λ h. cc, λ h. cc)

tolerate_iff :
    (code : ℕ) (a : Answer (Unit {0}))
    → (tolerate code a ≡ ok tt) ↔ (WasAccepted a ⊎ WasRefused code a)
tolerate_iff code (response u) = (λ _. inl refl, λ _. refl)
tolerate_iff code (refused (api c m)) = elim (Bool-cases (nat_eq c code)) [
  | inl e ↦
      let same : c ≡ code = ground arith in
      rw e (λ h. inr (m, ap (λ k. refused (api k m)) same), λ h. refl)
  | inr e ↦
      rw e (
        λ h. cc,
        λ h. elim h [ inl f ↦ cc | inr (k, f) ↦ let same : c ≡ code = cc in ground arith ],
      )
]
tolerate_iff code (refused (other m)) = (λ h. cc, λ h. elim h [ inl e ↦ cc | inr (k, e) ↦ cc ])

after_post_iff :
    (a : Answer (Unit {0}))
    → (after_post a ≡ ok tt) ↔ (WasAccepted a ⊎ ((code : ℕ) × WasRefused code a))
after_post_iff (response u) = (λ _. inl refl, λ _. refl)
after_post_iff (refused (api c m)) = (λ _. inr (c, (m, refl)), λ _. refl)
after_post_iff (refused (other m)) = (λ h. cc, λ h. elim h [ inl e ↦ cc | inr (c, (k, e)) ↦ cc ])

module _ (utc_now instant_now : Trace → Time) (client : ApiClient) (t : Trace) where
  update_iff :
      (i : Instance) (n ns : String) (a : Answer KubeAkriInstance)
      → (patch_found client (found_instance n ns (pass_on a) ∷ t) i n ns (pass_on a) ≡ ok tt) ↔ (
          (existing : KubeAkriInstance) × (a ≡ response existing)
          × WasAccepted (
              client.patch_instance
                (found_instance n ns (ok existing) ∷ t)
                (record { metadata = existing.metadata; spec = i })
                n
                ns))
  update_iff i n ns (refused e) = (λ h. cc, λ (x, h, _). cc)
  update_iff i n ns (response existing) =
      let (to, from) = pass_on_iff (
        client.patch_instance (found_instance n ns (ok existing) ∷ t)
          (record { metadata = existing.metadata; spec = i }) n ns) in
      (
        λ h. (existing, refl, to h),
        λ (x, e, h). from (
            let same : x ≡ existing = cc in
            subst
              (λ y. WasAccepted (
                client.patch_instance (found_instance n ns (ok y) ∷ t)
                  (record { metadata = y.metadata; spec = i }) n ns))
              same h),
      )

  -- A call of the cluster that changes something succeeds exactly if the server accepted its request, or
  -- refused it with the code that is tolerated: 409 when a Pod is created, 404 when a Pod or a service is
  -- removed, and any code when a service is created. An update of an Instance patches what was found
  -- just before, with its metadata kept.
  pub perform_iff :
      (write : Write)
      → (perform (kube_impl utc_now instant_now client) t write ≡ ok tt) ↔ Succeeds client t write
  unfolding kube_impl akri.Kube.Client.create_pod akri.Kube.Client.remove_pod
      akri.Kube.Client.create_service akri.Kube.Client.remove_service
      akri.Kube.Client.update_service akri.Kube.Client.create_instance
      akri.Kube.Client.delete_instance akri.Kube.Client.update_instance
      akri.Kube.Client.find_instance
  perform_iff (Write.create_pod p ns) = tolerate_iff 409 (client.post_pod t p ns)
  perform_iff (Write.remove_pod n ns) = tolerate_iff 404 (client.delete_pod t n ns)
  perform_iff (Write.create_service s ns) = after_post_iff (client.post_service t s ns)
  perform_iff (Write.remove_service n ns) = tolerate_iff 404 (client.delete_service t n ns)
  perform_iff (Write.update_service s n ns) = pass_on_iff (client.patch_service t s n ns)
  perform_iff (Write.create_instance i n ns c u) =
      pass_on_iff (client.post_instance t (owned_instance i n c u) ns)
  perform_iff (Write.delete_instance n ns) = pass_on_iff (client.delete_instance t n ns)
  perform_iff (Write.update_instance i n ns) = update_iff i n ns (client.get_instance t n ns)
