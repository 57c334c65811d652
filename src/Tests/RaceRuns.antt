-- ===== src/Tests/RaceRuns.antt =====
-- Two nodes that claim the same slot.
use akri.Base.{String, [], true, false, ◌≡◌, ◌≢◌, refl, ◌==◌, eq_iff, arith}
use akri.Base.HashMap.{get}
use akri.Agent.DevicePlugin.Allocation.{attempt_claim}
use akri.Agent.DevicePlugin.Race.{
  Contest, find, find_again, patch, starting, checked, located, granted, contest_step, request,
}
use akri.Agent.DevicePlugin.Race.Order.{grant_of, IsHeld}
use akri.Agent.DevicePlugin.Race.Attempts.{Agrees, round, attempt_claim-Agrees}
use akri.Agent.DevicePlugin.Race.Grants.{Reach, here, next, Reach-IsHeld}
use akri.Tests.Fixtures.{cluster, camera}

-- Both nodes read the free slot, and the second finds the Instance again after the patch of the first.
abbrev twice : Contest
twice = record { version = 9; holder = "node-b"; first = granted 7 7; second = granted 7 8 }

abbrev one_read : Contest
one_read = record { version = 7; holder = ""; first = checked 7 "node-a"; second = starting }

abbrev both_read : Contest
both_read = record {
  version = 7;
  holder = "";
  first = checked 7 "node-a";
  second = checked 7 "node-b";
}

abbrev first_located : Contest
first_located = record {
  version = 7;
  holder = "";
  first = located 7 7 "node-a";
  second = checked 7 "node-b";
}

abbrev first_granted : Contest
first_granted = record {
  version = 8;
  holder = "node-a";
  first = granted 7 7;
  second = checked 7 "node-b";
}

abbrev second_located : Contest
second_located = record {
  version = 8;
  holder = "node-a";
  first = granted 7 7;
  second = located 7 8 "node-b";
}

twice-Reach : Reach "node-a" "node-b" 7 twice
unfolding contest_step request
twice-Reach =
    next
      (next {t = second_located}
        (next {t = first_granted}
          (next {t = first_located}
            (next {t = both_read} (next {t = one_read} here true find refl) false find refl) true
            find_again refl)
          true patch refl)
        false find_again refl)
      false patch refl

differ : (s t : String) → (s == t) ≡ false → s ≢ t
differ s t h e = ground (arith, eq_iff s t)

Reach-IsHeld_example :
    IsHeld "node-a" "node-b" "node-b" (grant_of (granted 7 7)) (grant_of (granted 7 8))
Reach-IsHeld_example =
    Reach-IsHeld "node-a" "node-b" (differ _ _ refl) (differ _ _ refl) (differ _ _ refl) 7
      twice-Reach

-- The other node takes the slot after the first read, and loses it to the patch.
attempt_claim-Agrees_example :
    Agrees
      (attempt_claim cluster "cam-0" "node-a" "cam" "default" 0 []).0
      (round "node-a" (7, "") (8, "node-b") (8, "node-b"))
unfolding get
attempt_claim-Agrees_example =
    attempt_claim-Agrees cluster "cam-0" "node-a" "cam" "default" 0 [] camera "Conflict" (7, "")
      (8, "node-b") (8, "node-b") refl refl (λ value. refl)
