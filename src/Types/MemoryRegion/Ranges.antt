-- ===== src/Types/MemoryRegion/Ranges.antt =====
-- What the test of src/rdcp/types/memory_region.cpp for a range of addresses says.
use xbdm_gdb_bridge.Prelude.{Bytes, List, arith, true, ℕ, ◌%◌, ◌+◌, ◌-◌, ◌<◌, ◌^◌, ◌↔◌, ◌≡◌, ◌≤◌}
use xbdm_gdb_bridge.Types.MemoryRegion.{contains, memory_region}

-- Where a region and a range of at least one byte end within 32 bits, the region contains the range
-- exactly if every address of the range is one of the region.
pub contains-every :
    (start size protect address count : ℕ) (flags : List Bytes)
    → start + size < 2 ^ 32
    → address + count < 2 ^ 32
    → 1 ≤ count
    → (contains (memory_region start size protect flags) address count ≡ true)
      ↔ ((i : ℕ) → i < count → (start ≤ address + i) × (address + i < start + size))
unfolding contains memory_region
contains-every start size protect address count flags h k nonempty =
    let low : (address + count) % 2 ^ 32 ≡ address + count = omega (arith, k) in
    let high : (start + size) % 2 ^ 32 ≡ start + size = omega (arith, h) in
    (
      λ e i lt.
          let above : start ≤ address = ground (arith, e) in
          let below : (address + count) % 2 ^ 32 ≤ (start + size) % 2 ^ 32 = ground (arith, e) in
          (omega (arith, above), omega (arith, below, low, high, lt)),
      λ every.
          let first = every 0 (omega (arith, nonempty)) in
          let last = every (count - 1) (omega (arith, nonempty)) in
          let above : start ≤ address = omega (arith, first.0) in
          let below : (address + count) % 2 ^ 32 ≤ (start + size) % 2 ^ 32 =
            omega (arith, last.1, low, high, nonempty) in
          ground (arith, above, below),
    )

-- A range that begins in a region or behind it and ends behind the last 32-bit address, by no more
-- than the end of the region, is said to be contained.
pub contains-wraps :
    (start size protect address count : ℕ) (flags : List Bytes)
    → start + size < 2 ^ 32
    → start ≤ address
    → 2 ^ 32 ≤ address + count
    → address + count ≤ 2 ^ 32 + (start + size)
    → contains (memory_region start size protect flags) address count ≡ true
unfolding contains memory_region
contains-wraps start size protect address count flags h k wraps ends = ground arith
