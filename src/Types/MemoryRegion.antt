-- ===== src/Types/MemoryRegion.antt =====
-- src/rdcp/types/memory_region.h and memory_region.cpp: a region of memory. The constructor takes
-- the values that `RDCPMapResponse` finds.
pub mod Ranges
use xbdm_gdb_bridge.Prelude.{Bool, Bytes, List, leb, ℕ, ◌%◌, ◌&&◌, ◌+◌, ◌/◌, ◌==◌, ◌^◌, ◌||◌}

pub record MemoryRegion : Type 0 where
  pub start : ℕ
  pub end_address : ℕ
  pub size : ℕ
  pub protect : ℕ
  pub flags : List Bytes

-- `end` is computed in 32 bits.
unfoldable pub memory_region : ℕ → ℕ → ℕ → List Bytes → MemoryRegion
memory_region start size protect flags = record {
  start = start;
  end_address = (start + size) % 2 ^ 32;
  size = size;
  protect = protect;
  flags = flags;
}

unfoldable pub contains : MemoryRegion → ℕ → ℕ → Bool
contains region address size =
    leb region.start address && leb ((address + size) % 2 ^ 32) region.end_address

-- A bit of the protection, by its value.
unfoldable pub has_protection : MemoryRegion → ℕ → Bool
has_protection region flag = region.protect / flag % 2 == 1

-- `PAGE_READWRITE`, `PAGE_WRITECOPY` and the four that name `EXECUTE`.
unfoldable pub is_writable : MemoryRegion → Bool
unfolding has_protection
is_writable region =
    has_protection region 0x04
    || (has_protection region 0x08
        || (has_protection region 0x10
            || (has_protection region 0x20
                || (has_protection region 0x40 || has_protection region 0x80))))
