-- ===== src/Agent/Udev/Ancestors.antt =====
-- A device and its parents.
use akri.Base.{Bool, true, ◌≡◌, ◌↔◌, refl, ◌⊎◌, inl, inr, Bool-cases}
use akri.Agent.Udev.{DeviceInfo, Device, root, child}
use akri.Agent.Udev.Devices.{device_or_parents}

-- Something holds of the device or of one of its parents.
pub data HasUp (P : DeviceInfo → Type 0) : Device → Type 0 where
  alone : {i : DeviceInfo} → P i → HasUp P (root i)
  here : {i : DeviceInfo} {p : Device} → P i → HasUp P (child i p)
  up : {i : DeviceInfo} {p : Device} → HasUp P p → HasUp P (child i p)

module _ (P : DeviceInfo → Type 0) (has : DeviceInfo → Bool)
    (reads : (i : DeviceInfo) → (has i ≡ true) ↔ P i) where
  up_or_here : {i : DeviceInfo} {p : Device} → HasUp P (child i p) → P i ⊎ HasUp P p
  up_or_here (here x) = inl x
  up_or_here (up x) = inr x

  of_root : {i : DeviceInfo} → HasUp P (root i) → P i
  of_root (alone x) = x

  pub device_or_parents_iff : (d : Device) → (device_or_parents has d ≡ true) ↔ HasUp P d
  unfolding device_or_parents
  device_or_parents_iff (root i) = (λ h. alone ((reads i).0 h), λ h. (reads i).1 (of_root h))
  device_or_parents_iff (child i p) = elim (Bool-cases (has i)) [
    | inl e ↦ rw e (λ _. here ((reads i).0 e), λ _. refl)
    | inr e ↦ rw e (
      λ h. up ((device_or_parents_iff p).0 h),
      λ h. elim (up_or_here h) [
        | inl x ↦ let f = (reads i).1 x in cc
        | inr x ↦ (device_or_parents_iff p).1 x
      ],
    )
  ]
