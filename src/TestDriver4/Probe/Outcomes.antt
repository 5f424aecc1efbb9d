-- ===== src/TestDriver4/Probe/Outcomes.antt =====
-- What the probe of backup/qemu_linux4/qemu_test/qemu_test_pci.c leaves held.
use linux_qemu.Base.{◌≡◌, ◌&&◌, arith, if◌then◌else◌, none, some}
use linux_qemu.Base.Int.{pos}
use linux_qemu.TestDriver4.Probe.{Answers, nothing_held, pcisimple_probe, pcisimple_remove}

-- After a probe that reports success, removal gives everything back if both regions were mapped.
-- If one was not, removal gives back what the probe has released, and the probe has kept exactly
-- the mapping that was made.
pub pcisimple_remove-mapped :
    (a : Answers)
    → (pcisimple_probe a nothing_held).0 ≡ pos 0
    → (pcisimple_remove (pcisimple_probe a nothing_held).1
        ≡ (if a.mem_mapped && a.io_mapped then some nothing_held else none))
      × ((pcisimple_probe a nothing_held).1.mem_base ≡ a.mem_mapped)
      × ((pcisimple_probe a nothing_held).1.io_base ≡ a.io_mapped)
unfolding pcisimple_probe pcisimple_remove
pcisimple_remove-mapped a e = ground arith
