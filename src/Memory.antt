-- ===== src/Memory.antt =====
-- Device memory behind a PCI region, as backup/qemu_linux1/pci_testdev2.c and the can-pci.c of
-- backup/qemu_linux2 and backup/qemu_linux3 read and write it: memcpy of the host's little-endian
-- integers. `none` is a copy that leaves an object, undefined in C.
pub mod Laws
use linux_qemu.Base.{
  ℕ, zero, suc, ◌+◌, ◌*◌, ◌/◌, ◌%◌, List, [], ◌∷◌, ◌++◌, Option, none, some, ◌>>=◌, leb, ltb, set,
  length, take, drop, if◌then◌else◌,
}

-- The first `size` bytes of an integer in memory.
unfoldable pub bytes_of : ℕ → ℕ → List ℕ
bytes_of zero val = []
bytes_of (suc size) val = val % 256 ∷ bytes_of size (val / 256)

pub value_of : List ℕ → ℕ
value_of [] = 0
value_of (b ∷ bs) = b + 256 * value_of bs

unfoldable pub overlay : ℕ → List ℕ → List ℕ → List ℕ
overlay a [] mem = mem
overlay a (b ∷ bs) mem = overlay (a + 1) bs (set mem a b)

-- memcpy(mem + a, bs, n)
unfoldable pub store : ℕ → List ℕ → List ℕ → Option (List ℕ)
store a bs mem = if leb (a + length bs) (length mem) then some (overlay a bs mem) else none

-- memcpy(&v, mem + a, n)
unfoldable pub load : ℕ → ℕ → List ℕ → Option (List ℕ)
load a n mem = if leb (a + n) (length mem) then some (take n (drop a mem)) else none

-- The handlers' body: `region` is the size of the memory region, and an address above it is
-- ignored. After the memcpy the first two devices print the eight bytes at the address.
unfoldable pub write : ℕ → ℕ → ℕ → ℕ → List ℕ → Option (List ℕ)
unfolding bytes_of overlay store load
write region addr val size mem =
    if ltb region addr
    then some mem
    else do mem' ← store addr (bytes_of size val) mem; printed ← load addr 8 mem'; some mem'

-- `stale` are the four bytes that the variable `temp`, which nothing initialises, happens to hold.
unfoldable pub read : ℕ → ℕ → ℕ → List ℕ → List ℕ → Option ℕ
unfolding value_of overlay store load
read region addr size stale mem =
    if ltb region addr
    then some 0
    else do bytes ← load addr size mem; temp ← store 0 bytes stale; some (value_of temp)
