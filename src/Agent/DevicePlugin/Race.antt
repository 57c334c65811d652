-- ===== src/Agent/DevicePlugin/Race.antt =====
-- Two nodes that claim one slot at a time: `try_update_instance_device_usage` of
-- agent/src/util/device_plugin_service.rs over `update_instance` of shared/src/akri/instance.rs, request by
-- request, with the requests of the two agents interleaved. The API server keeps a version with the
-- Instance, which the metadata of each answer carries, and refuses a patch whose version is not the
-- present one. `update_instance` finds the Instance again and sends the version that it has then, with
-- the slots as they were read before. A claim whose patch was refused begins again.
pub mod Order
pub mod Grants
pub mod Attempts
use akri.Base.{
  ℕ, suc, String, Bool, true, false, Option, none, some, Result, ok, err, nat_eq, ◌==◌,
  if◌then◌else◌,
}
use akri.Agent.DevicePlugin.Allocation.{slot_value_of}

-- Where a claim is, with the versions of its read and of its second read, and the value to write.
pub data Claim : Type 0 where
  starting refused : Claim
  checked : ℕ → String → Claim
  located : ℕ → ℕ → String → Claim
  granted : ℕ → ℕ → Claim

-- The version of the Instance and the holder of the slot, with the two claims.
pub record Contest : Type 0 where
  pub version : ℕ
  pub holder : String
  pub first : Claim
  pub second : Claim

pub data Request : Type 0 where
  find find_again patch : Request

-- What a request leaves: the claim, the version and the holder.
abbrev pub Left : Type 0
Left = Claim × ℕ × String

abbrev pub after_find : ℕ → Result String → Claim
after_find version (ok value) = checked version value
after_find version (err e) = refused

abbrev pub after_patch : String → ℕ → ℕ → String → Claim
after_patch node read again value = if value == node then granted read again else refused

unfoldable pub request : String → Request → Claim → ℕ → String → Option Left
request node find starting version holder =
    some (after_find version (slot_value_of node (some holder)), version, holder)
request node find_again (checked read value) version holder =
    some (located read version value, version, holder)
request node patch (located read again value) version holder =
    if nat_eq version again
    then some (after_patch node read again value, suc version, value)
    else some (starting, version, holder)
request node r claim version holder = none

abbrev pub set_first : Contest → Option Left → Option Contest
set_first s none = none
set_first s (some (claim, version, holder)) =
    some (record { version = version; holder = holder; first = claim; second = s.second })

abbrev pub set_second : Contest → Option Left → Option Contest
set_second s none = none
set_second s (some (claim, version, holder)) =
    some (record { version = version; holder = holder; first = s.first; second = claim })

-- A request of the first node, or of the second.
unfoldable pub contest_step : String → String → Bool → Request → Contest → Option Contest
contest_step node other true r s = set_first s (request node r s.first s.version s.holder)
contest_step node other false r s = set_second s (request other r s.second s.version s.holder)

abbrev pub free_slot : ℕ → Contest
free_slot version = record { version = version; holder = ""; first = starting; second = starting }
