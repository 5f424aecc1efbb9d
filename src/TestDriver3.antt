-- ===== src/TestDriver3.antt =====
-- backup/qemu_linux3/qemu_test/qemu_test_pci.c and can_pci.h: the driver of the second CAN device,
-- which copies the caller's bytes to the device one by one and then starts the transmission.
-- `none` is an access outside the driver's buffer, undefined in C.
pub mod Sends
pub mod Loopback
use linux_qemu.Base.{ℕ, ◌*◌, List, Option, none, some, ◌>>=◌, Bool, if◌then◌else◌, replicate}
use linux_qemu.Base.Int.{ℤ, pos, efault}
use linux_qemu.Frame.{Bus, frame_size, write_all}
use linux_qemu.TestDriver4.Probe
use linux_qemu.TestDriver4.Probe.{Answers, Held}
use linux_qemu.Memory.{store, load}

-- The six frames of `mem` as their bytes; `dev->mem + *fpos` counts in frames.
pub record CanDev : Type 0 where
  pub mem : List ℕ

unfoldable pub irq_handler : CanDev → CanDev
irq_handler d = d

unfoldable pub device_open : CanDev → ℤ × CanDev
device_open d = (pos 0, record d { mem = replicate 96 0 })

unfoldable pub device_release : CanDev → ℤ × CanDev
device_release d = (pos 0, d)

-- `failed` is what copy_to_user answers; the bytes are what the caller's buffer then holds.
unfoldable pub device_read : ℕ → ℕ → Bool → CanDev → Option (ℤ × List ℕ)
device_read count fpos failed d = do
  bytes ← load (frame_size * fpos) count d.mem
  some (if failed then efault else pos count, bytes)

module _ {S : Type 0} (bus : Bus S) where
  -- `slot` are the `count` bytes that copy_from_user leaves, the caller's unless it `failed`.
  unfoldable pub device_write : ℕ → ℕ → List ℕ → Bool → CanDev → S → Option (ℤ × CanDev × S)
  device_write count fpos slot failed d s = do
    mem ← store (frame_size * fpos) slot d.mem
    let ret = if failed then efault else pos count
    bytes ← load 0 count mem
    let s1 = write_all bus 0 bytes s
    some (ret, record d { mem = mem }, bus.write8 s1 30 0x55)

-- These two agree with backup/qemu_linux4/qemu_test/qemu_test_pci.c line by line.
unfoldable pub pcisimple_probe : Answers → Held → ℤ × Held
pcisimple_probe = Probe.pcisimple_probe

unfoldable pub pcisimple_remove : Held → Option Held
pcisimple_remove = Probe.pcisimple_remove
