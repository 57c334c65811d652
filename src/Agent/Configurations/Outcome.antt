-- ===== src/Agent/Configurations/Outcome.antt =====
-- The outcome of a deletion, whatever the channels, the other tasks and the cluster do.
use mathlib.Core.Path.{subst}
use akri.Base.{
  String, Bool, true, false, Option, none, some, Result, ok, err, All, ◌≡◌, refl, sym, ap, ◌∙◌, ◌⊎◌,
  inl, inr, bind_result, ok_or, ◌>>=◌, ◌>>◌, lift, Elem, if◌then◌else◌,
}
use akri.Base.HashMap.{get, remove}
use akri.Kube.Types.{KubeAkriConfig}
use akri.Kube.Api.{KubeInterface, Done, sent_end}
use akri.Agent.Connectivity.{Discovery}
use akri.Agent.Configurations.{
  Answers, ConfigInfo, ConfigMap, Configs, get_config, meanwhile, take_config, on_instances,
  await_finish, end_instances, handle_config_delete,
}
use akri.Agent.Configurations.Deletion.{IsEnded}
use akri.Agent.Configurations.Cleared.{end_instances-IsKept, end_instances-AreEnded}

-- The map after the wait, with what the other tasks did to it.
abbrev pub waited : Answers → ConfigMap → ConfigMap
waited answers m = answers.last (if answers.stop_accepted then answers.others m else m)

module _ (answers : Answers) (config : KubeAkriConfig) where
  -- The Configuration has left the map with its Instances.
  abbrev pub IsTaken : Configs → ConfigInfo → Configs → Type 0
  IsTaken s info after =
      (get config.metadata.name (waited answers s.config_map) ≡ some info)
      × (after.config_map ≡ remove config.metadata.name (waited answers s.config_map))

  abbrev pub Outcome : Configs → Result (Unit {0}) → Configs → Type 0
  Outcome s (ok u) after =
      (info : ConfigInfo) × (namespace : String) × IsTaken s info after
      × (config.metadata.namespace ≡ some namespace)
      × ((k : String) → get k after.instance_map ≡ none)
      × All (λ e. IsEnded answers e.0 namespace after.trace) info.instance_map
  Outcome s (err e) after =
      ((after.instance_map ≡ s.instance_map) × (after.trace ≡ s.trace))
      ⊎ ((info : ConfigInfo) × IsTaken s info after
          × ((k : String)
              → (get k after.instance_map ≡ get k info.instance_map)
                ⊎ Elem (sent_end k) after.trace))

  module _ (kube : KubeInterface) where
    abbrev name : String
    name = config.metadata.name

    abbrev end_in : Option String → Configs → Result (Unit {0}) × Configs
    end_in q = lift (ok_or q "called `Option::unwrap()` on a `None` value") >>= λ namespace.
        on_instances (end_instances kube answers namespace)

    end_in-Outcome :
        (s w : Configs) (info : ConfigInfo)
        → w.instance_map ≡ info.instance_map
        → IsTaken s info w
        → (q : Option String) → config.metadata.namespace ≡ q
        → Outcome s (end_in q w).0 (end_in q w).1
    end_in-Outcome s w info same taken none e = inr (info, taken, λ k. inl (ap (get k) same))
    end_in-Outcome s w info same taken (some namespace) e =
        go (end_instances kube answers namespace d).0 refl
      where
        d : Discovery
        d = record { instance_map = w.instance_map; trace = w.trace }

        go :
            (r : Result (Unit {0}))
            → (end_instances kube answers namespace d).0 ≡ r
            → Outcome s r (on_instances (end_instances kube answers namespace) w).1
        go (ok u) q =
            let (absent, ended) = end_instances-AreEnded kube answers namespace d q in
            (
              info,
              namespace,
              taken,
              e,
              absent,
              subst
                  (All (λ e.
                    IsEnded answers e.0 namespace (end_instances kube answers namespace d).1.trace))
                  same ended,
            )
        go (err m) q = inr (
          info,
          taken,
          λ k.
              subst
                (λ m.
                  (get k (end_instances kube answers namespace d).1.instance_map ≡ get k m)
                  ⊎ Elem (sent_end k) (end_instances kube answers namespace d).1.trace)
                same (end_instances-IsKept kube answers namespace d k),
        )

    abbrev take_and_end : Configs → Result (Unit {0}) × Configs
    take_and_end =
        meanwhile answers.last
        >> (get_config name >>= λ info.
            take_config name info.instance_map >> end_in config.metadata.namespace)

    take_and_end-Outcome :
        (s : Configs) (m : ConfigMap)
        → answers.last m ≡ waited answers s.config_map
        → Outcome s
            (take_and_end (record s { config_map = m })).0
            (take_and_end (record s { config_map = m })).1
    take_and_end-Outcome s m same = go (get name (answers.last m)) refl
      where
        go :
            (q : Option ConfigInfo)
            → get name (answers.last m) ≡ q
            → Outcome s
                (bind_result
                  (
                    ok_or q "called `Option::unwrap()` on a `None` value",
                    record s { config_map = answers.last m },
                  )
                  λ info. take_config name info.instance_map >> end_in config.metadata.namespace).0
                (bind_result
                  (
                    ok_or q "called `Option::unwrap()` on a `None` value",
                    record s { config_map = answers.last m },
                  )
                  λ info. take_config name info.instance_map >> end_in config.metadata.namespace).1
        go none e = inl (refl, refl)
        go (some info) e =
            end_in-Outcome s
              (record s {
                config_map = remove name (answers.last m);
                instance_map = info.instance_map;
              })
              info refl (ap (get name) (sym same) ∙ e, ap (remove name) same)
              config.metadata.namespace refl

    -- A deletion without an error has taken the Configuration and its Instances out of the maps, told the
    -- plugin of each of the Instances to end, and deleted it, unless the cluster did not know it any more. An
    -- error stands for nothing done to Instances, or for a Configuration that is out of its map, each of
    -- whose Instances is as it was or had its plugin told to end. The other tasks, the channels and the
    -- cluster may do anything.
    pub handle_config_delete-Outcome :
        (s : Configs)
        → Outcome s
            (handle_config_delete kube answers config s).0
            (handle_config_delete kube answers config s).1
    unfolding handle_config_delete
    handle_config_delete-Outcome s = go (get name s.config_map) answers.stop_accepted refl
      where
        after : Option ConfigInfo → Bool → Result (Unit {0}) × Configs
        after q b =
            bind_result
              (bind_result (ok_or q "called `Option::unwrap()` on a `None` value", s)
                λ info. await_finish kube answers name b)
              λ u. take_and_end

        accepted : Option ConfigInfo → Done → Result (Unit {0}) × Configs
        accepted q r =
            bind_result
              (bind_result
                (
                  ok_or q "called `Option::unwrap()` on a `None` value",
                  record s { config_map = answers.others s.config_map },
                )
                λ again. lift r)
              λ u. take_and_end

        accepted-Outcome :
            answers.stop_accepted ≡ true
            → (q : Option ConfigInfo) (r : Done) → Outcome s (accepted q r).0 (accepted q r).1
        accepted-Outcome e none r = inl (refl, refl)
        accepted-Outcome e (some again) (err m) = inl (refl, refl)
        accepted-Outcome e (some again) (ok u) =
            take_and_end-Outcome s (answers.others s.config_map) (rw e refl)

        go :
            (q : Option ConfigInfo) (b : Bool)
            → answers.stop_accepted ≡ b
            → Outcome s (after q b).0 (after q b).1
        go none b e = inl (refl, refl)
        go (some info) false e = take_and_end-Outcome s s.config_map (rw e refl)
        go (some info) true e =
            accepted-Outcome e (get name (answers.others s.config_map)) answers.finished
