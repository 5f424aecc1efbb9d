-- ===== src/TestDriver3/Loopback.antt =====
-- The main.c of backup/qemu_linux3/qemu_test on its driver and the device of
-- backup/qemu_linux3/can-pci.c.
use linux_qemu.Base.{ℕ, List, some, ◌>>=◌, false}
use linux_qemu.Base.Int.{pos}
use linux_qemu.Frame.{Bus, frame_size}
use linux_qemu.Programs.Serves.{FileOperations, Serves}
use linux_qemu.TestDriver3.{CanDev, device_open, device_write, device_read}

-- The operations as the kernel calls them: the driver leaves *fpos at 0, and takes bytes.
abbrev pub byte_operations : {S : Type 0} → Bus S → FileOperations CanDev S (List ℕ)
byte_operations bus = record {
  device_open = λ d s. ((device_open d).0, (device_open d).1, s);
  device_write = λ m. device_write bus frame_size 0 m false;
  device_read = λ d. do
    (ret, bytes) ← device_read frame_size 0 false d
    some (ret, some bytes, d);
  device_release = λ s. (pos 0, s);
}
