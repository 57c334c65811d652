-- ===== src/Agent/DevicePlugin/Naming.antt =====
-- `get_device_instance_name` of agent/src/util/device_plugin_service.rs.
use Prim.Native.Char.{code}
use Prim.Native.String
use Prim.Native.String.{String}
use mathlib.Core.Logic.{ite}
use native.Mathlib.Decide.{ℕ_discrete}
use akri.Kube.Pods.{◌<>◌, replace_dots}

-- `str::replace("/", "-")`.
unfoldable pub replace_slashes : String → String
replace_slashes String.[] = ""
replace_slashes (String.◌∷◌ c s) =
    String.◌++◌ (ite (ℕ_discrete (code c) b'/') "-" (String.◌∷◌ c "")) (replace_slashes s)

unfoldable pub get_device_instance_name : String → String → String
get_device_instance_name id config_name = replace_slashes (replace_dots (config_name <> "-" <> id))
