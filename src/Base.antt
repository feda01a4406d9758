-- ===== src/Base.antt =====
-- The names that the modules of the development share: the libraries', passed on, and those of the
-- children. No code of the repository is modelled here.
mod Tests
mod Lists
mod Maps
mod Results
unfoldable pub use Tests.*
unfoldable pub use Lists.*
unfoldable pub use Maps.*
unfoldable pub use Results.*
pub use Prim.Native.Nat.{ℕ, zero, suc, ◌+◌, ◌-◌, ◌*◌, ◌/◌, ◌%◌, ◌^◌, ◌≤◌, ◌<◌}
pub use mathlib.Core.Path.{◌≡◌, refl, sym, ap, subst, ◌∙◌}
pub use mathlib.Core.Logic.{◌≢◌, ◌↔◌, ◌⊎◌, inl, inr, ite}
pub use mathlib.Core.Bool.{Bool, true, false, not, ◌&&◌, ◌||◌}
pub use mathlib.Core.Option.{Option, none, some}
pub use mathlib.Core.List.{List, [], ◌∷◌, ◌++◌, map, append-nil, append_assoc}
pub use native.Mathlib.Omega.{arith}
unfoldable pub use native.Mathlib.Decide.{dec_lt, dec_le, ℕ_discrete}
