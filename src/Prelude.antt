-- ===== src/Prelude.antt =====
-- The names that the other modules share: the libraries', passed on, those of two children, and
-- what tells options apart.
mod Tests
mod Lists
use Prim.Native.Char.{code}
unfoldable pub use Tests.*
pub use Lists.*
pub use Prim.Native.Nat.{ℕ, zero, suc, ◌+◌, ◌-◌, ◌*◌, ◌/◌, ◌%◌, ◌^◌, ◌≤◌, ◌<◌}
pub use Prim.Native.String.{String}
pub use mathlib.Core.Path.{◌≡◌, refl, sym, ap, ◌∙◌, ap₂, subst}
pub use mathlib.Core.Logic.{◌≢◌, ◌↔◌, ◌⊎◌, inl, inr}
pub use mathlib.Core.Bool.{Bool, true, false, not, ◌&&◌, ◌||◌}
pub use mathlib.Core.Option.{Option, none, some}
pub use mathlib.Core.List.{List, [], ◌∷◌, ◌++◌, map, append_assoc, append-nil}
pub use native.Mathlib.Omega.{arith}

-- A `std::vector<uint8_t>` or a `std::string`: its bytes.
abbrev pub Bytes : Type 0
Bytes = List ℕ

-- The bytes of a literal of ASCII characters.
abbrev pub codes : String → Bytes
codes String.[] = []
codes (String.◌∷◌ c s) = code c ∷ codes s

abbrev value_or {ℓ} : {A : Type ℓ} → A → Option A → A
value_or a none = a
value_or a (some b) = b

pub some-injective {ℓ} : {A : Type ℓ} {a b : A} → some a ≡ some b → a ≡ b
some-injective {a = a} e = ap (value_or a) e

abbrev option_size {ℓ} : {A : Type ℓ} → Option A → ℕ
option_size none = 0
option_size (some a) = 1

-- Nothing is not a value.
pub none_is_some {ℓ} : {A : Type ℓ} {a : A} → none ≡ some a → zero ≡ suc zero
none_is_some e = ap option_size e
