-- ===== src/Types/Tests.antt =====
-- The theorems on regions of memory, at concrete inputs.
use xbdm_gdb_bridge.Prelude.{[], arith, refl, true, ℕ, ◌+◌, ◌<◌, ◌↔◌, ◌≡◌, ◌≤◌}
use xbdm_gdb_bridge.Types.MemoryRegion.{contains, has_protection, is_writable, memory_region}
use xbdm_gdb_bridge.Types.MemoryRegion.Ranges.{contains-every, contains-wraps}

contains-every_example :
    (contains (memory_region 0x1000 0x2000 4 []) 0x1800 16 ≡ true)
    ↔ ((i : ℕ) → i < 16 → (0x1000 ≤ 0x1800 + i) × (0x1800 + i < 0x1000 + 0x2000))
contains-every_example =
    contains-every 0x1000 0x2000 4 0x1800 16 [] (omega arith) (omega arith) (omega arith)

contains-wraps_example : contains (memory_region 0x1000 0x2000 4 []) 0xFFFFFFF0 32 ≡ true
contains-wraps_example =
    contains-wraps 0x1000 0x2000 4 0xFFFFFFF0 32 [] (omega arith) (omega arith) (omega arith)
      (omega arith)

-- A region that can be executed and read, but not written, is said to be writable.
writable_code : is_writable (memory_region 0x10000 0x1000 0x20 []) ≡ true
unfolding is_writable has_protection memory_region
writable_code = refl
