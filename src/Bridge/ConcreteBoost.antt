-- ===== src/Bridge/ConcreteBoost.antt =====
-- Functions that do what boost documents of those that src/xbox/bridge/gdb_bridge.cpp calls, to run
-- its handlers on.
use xbdm_gdb_bridge.Prelude.{
  Bool, Bytes, Option, [], ap, ap₂, arith, false, none, refl, some, true, ℕ, ◌%◌, ◌*◌, ◌+◌, ◌/◌,
  ◌∙◌, ◌∷◌, ◌≡◌,
}
use xbdm_gdb_bridge.Cstd.{digit_in, hex_digit}
use xbdm_gdb_bridge.Rdcp.Response.{starts_with}
use xbdm_gdb_bridge.Bridge.Interface.{AreCodes, Boost, IsBoost}
use xbdm_gdb_bridge.Bridge.Numbers.{digit_in-hex_digit}
use xbdm_gdb_bridge.Bridge.Commands.Threads.Listing.{parts_at, parts_at-Lacks, parts_at-first}

abbrev hex_text : Bytes → Bytes
hex_text [] = []
hex_text (c ∷ cs) = hex_digit (c / 16) ∷ hex_digit (c % 16) ∷ hex_text cs

-- A byte in front, unless one of its digits is none.
abbrev byte_first : Option ℕ → Option ℕ → Bytes × Bool → Bytes × Bool
byte_first none low written = ([], true)
byte_first (some high) none written = ([], true)
byte_first (some high) (some low) (bytes, throws) = ((high * 16 + low) ∷ bytes, throws)

abbrev unhex_text : Bytes → Bytes × Bool
unhex_text [] = ([], false)
unhex_text (c ∷ []) = ([], true)
unhex_text (high ∷ low ∷ text) = byte_first (digit_in 16 high) (digit_in 16 low) (unhex_text text)

abbrev pub concrete_boost : Boost
concrete_boost = record {
  hex = hex_text;
  split = parts_at;
  has_prefix = λ text prefix. starts_with prefix text;
  unhex = unhex_text;
}

unhex_text-hex_text :
    (bytes : Bytes) → AreCodes bytes → unhex_text (hex_text bytes) ≡ (bytes, false)
unhex_text-hex_text [] h = refl
unhex_text-hex_text (c ∷ cs) h =
    let high : digit_in 16 (hex_digit (c / 16)) ≡ some (c / 16) =
      digit_in-hex_digit (c / 16) (omega (arith, h.0)) in
    let low : digit_in 16 (hex_digit (c % 16)) ≡ some (c % 16) =
      digit_in-hex_digit (c % 16) (omega arith) in
    let whole : c / 16 * 16 + c % 16 ≡ c = omega arith in
    ap₂ (λ a b. byte_first a b (unhex_text (hex_text cs))) high low
    ∙ (ap (byte_first (some (c / 16)) (some (c % 16))) (unhex_text-hex_text cs h.1)
        ∙ ap (λ n. (n ∷ cs, false)) whole)

pub concrete_boost-IsBoost : IsBoost concrete_boost
concrete_boost-IsBoost = record {
  prefix_test = λ text prefix. refl;
  split_last = λ c text h. parts_at-Lacks c text h;
  split_first = λ c front rest h. parts_at-first c front rest h;
  unhex-hex = λ bytes h. unhex_text-hex_text bytes h;
}
