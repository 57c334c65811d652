-- ===== src/Agent/Configurations/Deletion.antt =====
-- One Instance of a Configuration that is deleted: the last message to its plugin, and its deletion.
use akri.Base.{String, ◌∷◌, Result, ok, err, Elem, ◌≡◌, refl, inl, inr, ◌⊎◌, bind_result}
use akri.Base.Loops.{Keeps}
use akri.Kube.Types.{KubeAkriInstance}
use akri.Kube.Api.{Event, Trace, Done, KubeInterface, deleted_instance, found_instance, sent_end}
use akri.Agent.DevicePlugin.{InstanceInfo}
use akri.Agent.Connectivity.{Discovery, on_trace, try_delete_instance, after_delete, settle_delete}
use akri.Agent.Configurations.{Answers, drop_instance, end_entry}

-- The Instance was deleted, or the cluster did not know it any more.
abbrev pub IsGone : String → String → Trace → Type 0
IsGone name ns t =
    Elem (deleted_instance name ns (ok tt)) t
    ⊎ ((e : String) × Elem (deleted_instance name ns (err e)) t
        × (f : String) × Elem (found_instance name ns (err f)) t)

abbrev pub IsEnded : Answers → String → String → Trace → Type 0
IsEnded answers name ns t =
    Elem (sent_end name) t × ((u : Trace) × (answers.end_taken u name ≡ ok tt)) × IsGone name ns t

pub IsEnded-cons :
    (answers : Answers) (name ns : String) (ev : Event) (t : Trace)
    → IsEnded answers name ns t
    → IsEnded answers name ns (ev ∷ t)
IsEnded-cons answers name ns ev t (h, taken, inl g) = (inr h, taken, inl (inr g))
IsEnded-cons answers name ns ev t (h, taken, inr (e, g, f, l)) =
    (inr h, taken, inr (e, inr g, f, inr l))

module _ (kube : KubeInterface) where
  -- A call only adds to the trace.
  pub try_delete-Keeps :
      (P : Trace → Type 0) (name ns : String)
      → ((ev : Event) (t : Trace) → P t → P (ev ∷ t))
      → Keeps P (try_delete_instance kube name ns)
  unfolding try_delete_instance
  try_delete-Keeps P name ns more t p = go (kube.delete_instance t name ns)
    where
      go : (r : Done) → P (after_delete kube name ns r (deleted_instance name ns r ∷ t)).1
      go (ok u) = more _ _ p
      go (err e) = more _ _ (more _ _ p)

  try_delete-IsGone :
      (name ns : String) (t : Trace)
      → (try_delete_instance kube name ns t).0 ≡ ok tt
      → IsGone name ns (try_delete_instance kube name ns t).1
  unfolding try_delete_instance
  try_delete-IsGone name ns t = go (kube.delete_instance t name ns)
    where
      looked :
          (e : String) (r : Result KubeAkriInstance)
          → settle_delete kube (err e) r ≡ ok tt
          → IsGone name ns (found_instance name ns r ∷ deleted_instance name ns (err e) ∷ t)
      looked e (ok i) h = cc
      looked e (err f) h = inr (e, inr (inl refl), f, inl refl)

      go :
          (r : Done)
          → (after_delete kube name ns r (deleted_instance name ns r ∷ t)).0 ≡ ok tt
          → IsGone name ns (after_delete kube name ns r (deleted_instance name ns r ∷ t)).1
      go (ok u) h = inl (inl refl)
      go (err e) h = looked e (kube.find_instance (deleted_instance name ns (err e) ∷ t) name ns) h

  module _ (answers : Answers) (namespace : String) where
    -- What holds of a trace and is kept by each call holds after each Instance.
    pub end_entry-Keeps :
        (P : Trace → Type 0) (e : String × InstanceInfo)
        → ((ev : Event) (t : Trace) → P t → P (ev ∷ t))
        → Keeps (λ d. P d.trace) (end_entry kube answers namespace e)
    end_entry-Keeps P e more d p = go (answers.end_taken d.trace e.0)
      where
        go :
            (r : Done)
            → P
                (bind_result
                  (r, record d { trace = sent_end e.0 ∷ d.trace })
                  λ u w.
                    bind_result
                      (drop_instance e.0 w)
                      λ v. on_trace (try_delete_instance kube e.0 namespace)).1.trace
        go (ok u) = try_delete-Keeps P e.0 namespace more _ (more _ _ p)
        go (err m) = more _ _ p

    pub end_entry-IsEnded :
        (e : String × InstanceInfo) (d : Discovery)
        → (end_entry kube answers namespace e d).0 ≡ ok tt
        → IsEnded answers e.0 namespace (end_entry kube answers namespace e d).1.trace
    end_entry-IsEnded e d = go (answers.end_taken d.trace e.0) refl
      where
        go :
            (r : Done)
            → answers.end_taken d.trace e.0 ≡ r
            → (bind_result
                (r, record d { trace = sent_end e.0 ∷ d.trace })
                λ u w.
                  bind_result
                    (drop_instance e.0 w)
                    λ v. on_trace (try_delete_instance kube e.0 namespace)).0
              ≡ ok tt
            → IsEnded answers e.0 namespace
                (bind_result
                  (r, record d { trace = sent_end e.0 ∷ d.trace })
                  λ u w.
                    bind_result
                      (drop_instance e.0 w)
                      λ v. on_trace (try_delete_instance kube e.0 namespace)).1.trace
        go (ok u) q h = (
          try_delete-Keeps (λ t. Elem (sent_end e.0) t) e.0 namespace (λ ev t. inr) _ (inl refl),
          (d.trace, q),
          try_delete-IsGone e.0 namespace (sent_end e.0 ∷ d.trace) h,
        )
        go (err m) q h = cc
