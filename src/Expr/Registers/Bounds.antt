-- ===== src/Expr/Registers/Bounds.antt =====
-- Every register value fits 32 bits, and the narrow names give the parts of the wide ones.
use mathlib.Core.Path.{subst}
use xbdm_gdb_bridge.Cstd.{lower}
use xbdm_gdb_bridge.Prelude.{
  ==_iff, Bool-cases, Bytes, Option, [], arith, codes, inl, inr, none, refl, same, some, sym, true,
  ℕ, ◌%◌, ◌*◌, ◌+◌, ◌/◌, ◌<◌, ◌==◌, ◌^◌, ◌∷◌, ◌≡◌, ◌≤◌,
}
use xbdm_gdb_bridge.Types.ThreadContext.{Fits32, IsContext, ThreadContext}
use xbdm_gdb_bridge.Expr.Token.{Ensures, Ensures-if, holds, ok, rejected, unknown_register}
use xbdm_gdb_bridge.Expr.Registers.{
  resolve, resolve16, resolve8, resolve_lower, resolve_part, resolve_register_value,
}

resolve-Ensures :
    (o : Option ℕ) (name : Bytes) → Fits32 o → Ensures (λ v. v < 2 ^ 32) (resolve o name)
resolve-Ensures none name h = rejected
resolve-Ensures (some v) name h = holds h

resolve16-Ensures : (o : Option ℕ) (name : Bytes) → Ensures (λ v. v < 2 ^ 32) (resolve16 o name)
resolve16-Ensures none name = rejected
resolve16-Ensures (some v) name = holds (omega arith)

resolve8-Ensures :
    (o : Option ℕ) (name : Bytes) (shift : ℕ) → Ensures (λ v. v < 2 ^ 32) (resolve8 o name shift)
resolve8-Ensures none name shift = rejected
resolve8-Ensures (some v) name shift = holds (omega arith)

resolve_part-Ensures :
    (c : ThreadContext) (reg name : Bytes) → Ensures (λ v. v < 2 ^ 32) (resolve_part c reg name)
unfolding resolve_part
resolve_part-Ensures c reg name =
    (Ensures-if (same name (codes "ax")) (resolve16-Ensures c.eax (codes "ax")) (
      Ensures-if (same name (codes "bx")) (resolve16-Ensures c.ebx (codes "bx")) (
        Ensures-if (same name (codes "cx")) (resolve16-Ensures c.ecx (codes "cx")) (
          Ensures-if (same name (codes "dx")) (resolve16-Ensures c.edx (codes "dx")) (
            Ensures-if (same name (codes "si")) (resolve16-Ensures c.esi (codes "si")) (
              Ensures-if (same name (codes "di")) (resolve16-Ensures c.edi (codes "di")) (
                Ensures-if (same name (codes "ah")) (resolve8-Ensures c.eax (codes "eax") 8) (
                  Ensures-if (same name (codes "bh")) (resolve8-Ensures c.ebx (codes "ebx") 8) (
                    Ensures-if (same name (codes "ch")) (resolve8-Ensures c.ecx (codes "ecx") 8) (
                      Ensures-if (same name (codes "dh")) (resolve8-Ensures c.edx (codes "edx") 8) (
                        Ensures-if (same name (codes "al")) (resolve8-Ensures c.eax (codes "eax") 0)
                          (Ensures-if (same name (codes "bl"))
                            (resolve8-Ensures c.ebx (codes "ebx") 0)
                            (Ensures-if (same name (codes "cl"))
                              (resolve8-Ensures c.ecx (codes "ecx") 0)
                              (Ensures-if (same name (codes "dl"))
                                (resolve8-Ensures c.edx (codes "edx") 0)
                                (rejected {message = unknown_register reg})))))))))))))))

resolve_lower-Ensures :
    (c : ThreadContext) (reg name : Bytes)
    → IsContext c
    → Ensures (λ v. v < 2 ^ 32) (resolve_lower c reg name)
unfolding resolve_lower
resolve_lower-Ensures c reg name h =
    (Ensures-if (same name (codes "eax")) (resolve-Ensures c.eax (codes "eax") h.eax_fits) (
      Ensures-if (same name (codes "ebx")) (resolve-Ensures c.ebx (codes "ebx") h.ebx_fits) (
        Ensures-if (same name (codes "ecx")) (resolve-Ensures c.ecx (codes "ecx") h.ecx_fits) (
          Ensures-if (same name (codes "edx")) (resolve-Ensures c.edx (codes "edx") h.edx_fits) (
            Ensures-if (same name (codes "esi")) (resolve-Ensures c.esi (codes "esi") h.esi_fits) (
              Ensures-if (same name (codes "edi")) (resolve-Ensures c.edi (codes "edi") h.edi_fits)
                (Ensures-if (same name (codes "ebp"))
                  (resolve-Ensures c.ebp (codes "ebp") h.ebp_fits)
                  (Ensures-if (same name (codes "esp"))
                    (resolve-Ensures c.esp (codes "esp") h.esp_fits)
                    (Ensures-if (same name (codes "eip"))
                      (resolve-Ensures c.eip (codes "eip") h.eip_fits)
                      (Ensures-if (same name (codes "eflags"))
                        (resolve-Ensures c.eflags (codes "eflags") h.eflags_fits)
                        (resolve_part-Ensures c reg name)))))))))))

pub resolve_register_value-Ensures :
    (c : ThreadContext) (reg : Bytes)
    → IsContext c
    → Ensures (λ v. v < 2 ^ 32) (resolve_register_value c reg)
unfolding resolve_register_value
resolve_register_value-Ensures c reg h = resolve_lower-Ensures c reg (lower reg) h

-- The names of the 32-bit register, of its low half, and of the two bytes of that half.
pub record Names : Type 0 where
  pub wide : Bytes
  pub half : Bytes
  pub high : Bytes
  pub low : Bytes

abbrev pub names : ℕ → Names
names letter = record {
  wide = b'e' ∷ letter ∷ b'x' ∷ [];
  half = letter ∷ b'x' ∷ [];
  high = letter ∷ b'h' ∷ [];
  low = letter ∷ b'l' ∷ [];
}

-- What the narrow names give, where the 32-bit register holds `v`.
abbrev pub Parts : ThreadContext → ℕ → ℕ → Type 0
Parts c letter v =
    (h : ℕ) × (l : ℕ) × (resolve_register_value c (names letter).half ≡ ok (v % 2 ^ 16))
    × (resolve_register_value c (names letter).high ≡ ok h)
    × (resolve_register_value c (names letter).low ≡ ok l)
    × (h * 256 + l ≡ v % 2 ^ 16)

parts_of :
    (o : Option ℕ) (wide half : Bytes) (v : ℕ)
    → resolve o wide ≡ ok v
    → (h : ℕ) × (l : ℕ) × (resolve16 o half ≡ ok (v % 2 ^ 16))
      × (resolve8 o wide 8 ≡ ok h)
      × (resolve8 o wide 0 ≡ ok l)
      × (h * 256 + l ≡ v % 2 ^ 16)
parts_of none wide half v e = absurd (cc)
parts_of (some w) wide half v e =
    let value : w ≡ v = ground arith in
    (w / 2 ^ 8 % 2 ^ 8, w / 2 ^ 0 % 2 ^ 8, rw value, refl, refl, omega arith)

-- The statement at one letter.
abbrev At : ThreadContext → ℕ → ℕ → Type 0
At c v letter = resolve_register_value c (names letter).wide ≡ ok v → Parts c letter v

parts_a : (c : ThreadContext) (v : ℕ) → At c v b'a'
unfolding resolve_register_value
parts_a c v = parts_of c.eax (codes "eax") (codes "ax") v

parts_b : (c : ThreadContext) (v : ℕ) → At c v b'b'
unfolding resolve_register_value
parts_b c v = parts_of c.ebx (codes "ebx") (codes "bx") v

parts_c : (c : ThreadContext) (v : ℕ) → At c v b'c'
unfolding resolve_register_value
parts_c c v = parts_of c.ecx (codes "ecx") (codes "cx") v

parts_d : (c : ThreadContext) (v : ℕ) → At c v b'd'
unfolding resolve_register_value
parts_d c v = parts_of c.edx (codes "edx") (codes "dx") v

-- Where the 32-bit register of the letter `a`, `b`, `c` or `d` has a value, the name of its low
-- half gives that value modulo 2 ^ 16, and those of its high and low byte make that half up.
pub resolve-Parts :
    (c : ThreadContext) (letter v : ℕ)
    → b'a' ≤ letter
    → letter ≤ b'd'
    → resolve_register_value c (names letter).wide ≡ ok v
    → Parts c letter v
resolve-Parts c letter v lo hi = elim (Bool-cases (letter == b'a')) [
  | inl e ↦ settle b'a' e (parts_a c v)
  | inr not_a ↦ elim (Bool-cases (letter == b'b')) [
    | inl e ↦ settle b'b' e (parts_b c v)
    | inr not_b ↦ elim (Bool-cases (letter == b'c')) [
      | inl e ↦ settle b'c' e (parts_c c v)
      | inr not_c ↦
          let is_d : letter ≡ b'd' = ground arith in subst (At c v) (sym is_d) (parts_d c v)
    ]
  ]
]
  where
    settle : (k : ℕ) → (letter == k) ≡ true → At c v k → At c v letter
    settle k e h = subst (At c v) (sym ((==_iff letter k).0 e)) h
