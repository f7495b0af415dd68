-- ===== src/Base.antt =====
-- The names that the components share: the libraries', passed on, and those of the children.
mod Tests
mod Lists
mod Results
mod Bytes
pub mod Dict
pub mod Strings
pub use Tests.*
pub use Lists.*
pub use Results.*
pub use Bytes.{
  IsByte, IsBytes, length-to_le_bytes, to_le_bytes-IsBytes, from_le_bytes-to_le_bytes,
  from_le_bytes-lt, to_le_bytes-from_le_bytes, ℤ, pos, negsuc, of_signed-to_signed,
}
unfoldable pub use Bytes.{from_le_bytes, to_le_bytes, to_signed, of_signed}
pub use Prim.Native.Nat.{ℕ, zero, suc, ◌+◌, ◌-◌, ◌*◌, ◌/◌, ◌%◌, ◌^◌, ◌≤◌, ◌<◌}
pub use Prim.Native.String.{String}
pub use mathlib.Core.Path.{◌≡◌, refl, sym, ap, ap₂, subst, ◌∙◌}
pub use mathlib.Core.Logic.{◌≢◌, ◌↔◌, ◌⊎◌, inl, inr}
pub use mathlib.Core.Bool.{Bool, true, false, not, ◌&&◌, ◌||◌}
pub use mathlib.Core.Option.{Option, none, some}
pub use mathlib.Core.List.{List, [], ◌∷◌, ◌++◌, map, append-nil, append_assoc}
pub use native.Mathlib.Omega.{arith}
