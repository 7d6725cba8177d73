-- ===== src/Cstd/Laws.antt =====
-- Laws of the C library functions: where `memchr` finds a byte, and that two hexadecimal digits
-- read back.
use xbdm_gdb_bridge.Prelude.{
  Bool-cases, Bytes, Option-cases, [], arith, false, inl, inr, length, some, ℕ, ◌++◌, ◌<◌, ◌==◌,
  ◌∷◌, ◌≡◌,
}
use xbdm_gdb_bridge.Cstd.{memchr}

-- No byte of the list is `c`.
abbrev pub Lacks : ℕ → Bytes → Type 0
Lacks c [] = Unit {0}
Lacks c (x ∷ xs) = ((x == c) ≡ false) × Lacks c xs

pub memchr-Lacks :
    (c : ℕ) (xs rest : Bytes) → Lacks c xs → memchr c (xs ++ c ∷ rest) ≡ some (length xs)
unfolding memchr
memchr-Lacks c [] rest h = ground arith
memchr-Lacks c (x ∷ xs) rest h = ground (arith, memchr-Lacks c xs rest h.1)

pub memchr-lt : (c : ℕ) (xs : Bytes) {i : ℕ} → memchr c xs ≡ some i → i < length xs
unfolding memchr
memchr-lt c [] h = cc
memchr-lt c (x ∷ xs) h = elim (Bool-cases (x == c)) [
  | inl here ↦ ground arith
  | inr later ↦ elim (Option-cases (memchr c xs)) [
    | inl absent ↦ ground arith
    | inr (j, found) ↦ ground (arith, memchr-lt c xs found)
  ]
]
