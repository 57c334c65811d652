-- ===== src/Base.antt =====
-- The names that the other modules share.
mod Tests
mod Lists
pub mod HashMap
mod Show
mod Run
pub mod Loops
pub use Tests.*
pub use Lists.*
pub use Run.{Result, ok, err, ok_or, M, bind_result, ◌>>=◌, ◌>>◌, pure, lift, attempt}
unfoldable pub use Show.{show}
unfoldable pub use Run.{for_each}
pub use Prim.Native.Nat.{ℕ, zero, suc, ◌+◌, ◌-◌, ◌*◌, ◌≤◌, ◌<◌}
pub use Prim.Native.String.{String}
pub use mathlib.Core.Path.{◌≡◌, refl, sym, ap, ◌∙◌}
pub use mathlib.Core.Logic.{◌≢◌, ◌↔◌, ◌⊎◌, inl, inr}
pub use mathlib.Core.Bool.{Bool, true, false, not, ◌&&◌, ◌||◌}
pub use mathlib.Core.Option.{Option, none, some}
pub use mathlib.Core.List.{List, [], ◌∷◌, ◌++◌, map}
pub use native.Mathlib.Omega.{arith}
pub use text.Mathlib.Text.{◌==◌}
pub use text.Mathlib.TextEquality.{eq_iff}
