-- ===== src/Tracer/Image.antt =====
-- The conversions between pixel formats of src/tracer/image_util.cpp. A `uint16_t` pixel is two
-- bytes, the low one first; the result is the list of the bytes that are written.
use Prim.Native.Nat.{bit_or}
use xbdm_gdb_bridge.Prelude.{
  Bytes, [], arith, holds_below, holds_below→eq, refl, true, ℕ, ◌%◌, ◌*◌, ◌++◌, ◌+◌, ◌/◌, ◌<◌, ◌==◌,
  ◌^◌, ◌∷◌, ◌≡◌, ==_iff, ap,
}

-- `(v << 3) | (v >> 2)` of five bits, `(v << 2) | (v >> 4)` of six, `(v << 4) | (v >> 1)` of four.
unfoldable pub expand5 : ℕ → ℕ
expand5 v = bit_or (v * 8) (v / 4)

unfoldable pub expand6 : ℕ → ℕ
expand6 v = bit_or (v * 4) (v / 16)

unfoldable pub expand4 : ℕ → ℕ
expand4 v = bit_or (v * 16) (v / 2)

-- The bodies of the four loops over 16-bit pixels.
unfoldable pub rgb565_pixel : ℕ → Bytes
unfolding expand5 expand6
rgb565_pixel p = expand5 (p / 2 ^ 11 % 32) ∷ expand6 (p / 2 ^ 5 % 64) ∷ expand5 (p % 32) ∷ []

unfoldable pub xrgb1555_pixel : ℕ → Bytes
unfolding expand5
xrgb1555_pixel p = expand5 (p / 2 ^ 10 % 32) ∷ expand5 (p / 2 ^ 5 % 32) ∷ expand5 (p % 32) ∷ []

unfoldable pub argb1555_pixel : ℕ → Bytes
unfolding xrgb1555_pixel
argb1555_pixel p = p / 2 ^ 15 % 2 * 255 ∷ xrgb1555_pixel p

unfoldable pub argb4444_pixel : ℕ → Bytes
unfolding expand4
argb4444_pixel p =
    expand4 (p / 2 ^ 12 % 16)
    ∷ expand4 (p / 2 ^ 8 % 16)
    ∷ expand4 (p / 2 ^ 4 % 16)
    ∷ expand4 (p % 16)
    ∷ []

-- The loop over the pixels; an odd byte at the end is not read.
unfoldable pub convert16 : (ℕ → Bytes) → Bytes → Bytes
convert16 pixel (low ∷ high ∷ rest) = pixel (low + 256 * high) ++ convert16 pixel rest
convert16 pixel _ = []

unfoldable pub rgb565_to_rgb88 : Bytes → Bytes
unfolding convert16 rgb565_pixel
rgb565_to_rgb88 src = convert16 rgb565_pixel src

unfoldable pub axr5g5b5_to_rgb888 : Bytes → Bytes
unfolding convert16 xrgb1555_pixel
axr5g5b5_to_rgb888 src = convert16 xrgb1555_pixel src

unfoldable pub a1r5g5b5_to_rgba888 : Bytes → Bytes
unfolding convert16 argb1555_pixel
a1r5g5b5_to_rgba888 src = convert16 argb1555_pixel src

unfoldable pub a4r4g4b4_to_rgba888 : Bytes → Bytes
unfolding convert16 argb4444_pixel
a4r4g4b4_to_rgba888 src = convert16 argb4444_pixel src

-- The loops over 32-bit pixels; what is left of a pixel at the end is not read.
unfoldable pub bgra_to_rgba : Bytes → Bytes
bgra_to_rgba (a ∷ b ∷ c ∷ d ∷ rest) = c ∷ b ∷ a ∷ d ∷ bgra_to_rgba rest
bgra_to_rgba _ = []

unfoldable pub abgr_to_rgba : Bytes → Bytes
abgr_to_rgba (a ∷ b ∷ c ∷ d ∷ rest) = d ∷ c ∷ b ∷ a ∷ abgr_to_rgba rest
abgr_to_rgba _ = []

unfoldable pub argb_to_rgba : Bytes → Bytes
argb_to_rgba (a ∷ b ∷ c ∷ d ∷ rest) = b ∷ c ∷ d ∷ a ∷ argb_to_rgba rest
argb_to_rgba _ = []

-- The three orders agree with each other: turning the bytes of every pixel around and then
-- exchanging red and blue is what `ARGBToRGBA` does, on every buffer.
pub bgra_to_rgba-abgr_to_rgba : (src : Bytes) → bgra_to_rgba (abgr_to_rgba src) ≡ argb_to_rgba src
unfolding bgra_to_rgba abgr_to_rgba argb_to_rgba
bgra_to_rgba-abgr_to_rgba (a ∷ b ∷ c ∷ d ∷ rest) =
    ap (λ t. b ∷ c ∷ d ∷ a ∷ t) (bgra_to_rgba-abgr_to_rgba rest)
bgra_to_rgba-abgr_to_rgba (a ∷ b ∷ c ∷ []) = refl
bgra_to_rgba-abgr_to_rgba (a ∷ b ∷ []) = refl
bgra_to_rgba-abgr_to_rgba (a ∷ []) = refl
bgra_to_rgba-abgr_to_rgba [] = refl

-- The high bits of the three bytes, as a pixel of 5, 6 and 5 bits.
unfoldable pub pack565 : Bytes → ℕ
pack565 (r ∷ g ∷ b ∷ rest) = r / 8 * 2 ^ 11 + g / 4 * 2 ^ 5 + b / 8
pack565 _ = 0

expand5_table : holds_below 32 (λ v. expand5 v / 8 == v) ≡ true
unfolding holds_below expand5
expand5_table = refl

expand6_table : holds_below 64 (λ v. expand6 v / 4 == v) ≡ true
unfolding holds_below expand6
expand6_table = refl

expand5_high : (v : ℕ) → v < 32 → expand5 v / 8 ≡ v
expand5_high v h =
    (==_iff (expand5 v / 8) v).0 (holds_below→eq 32 (λ w. expand5 w / 8 == w) v expand5_table h)

expand6_high : (v : ℕ) → v < 64 → expand6 v / 4 ≡ v
expand6_high v h =
    (==_iff (expand6 v / 4) v).0 (holds_below→eq 64 (λ w. expand6 w / 4 == w) v expand6_table h)

-- No colour is lost: the high bits of the bytes that a 16-bit pixel becomes are the pixel.
pub pack565-rgb565_pixel : (p : ℕ) → p < 2 ^ 16 → pack565 (rgb565_pixel p) ≡ p
unfolding pack565 rgb565_pixel
pack565-rgb565_pixel p h =
    let red = expand5_high (p / 2 ^ 11 % 32) (omega arith) in
    let green = expand6_high (p / 2 ^ 5 % 64) (omega arith) in
    let blue = expand5_high (p % 32) (omega arith) in omega (arith, red, green, blue)
