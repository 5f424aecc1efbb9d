-- ===== src/Driver/Probe/Outcomes.antt =====
-- When pcisimple_probe of source/linux_driver/*/can_pci.c succeeds, and what it leaves held.
use linux_qemu.Base.{
  ◌≡◌, ◌⊎◌, ◌↔◌, Bool, true, false, not, ◌&&◌, ◌==◌, arith, if◌then◌else◌, none, some,
}
use linux_qemu.Base.Int.{pos, is_zero, is_neg}
use linux_qemu.Driver.Probe.{
  Answers, Held, nothing_held, all_held, pci_revision_id_canbus, pcisimple_probe, pcisimple_remove,
}

-- The calls up to pci_request_regions succeed.
abbrev pub reaches_iomap : Answers → Bool
reaches_iomap a =
    a.allocated && (a.revision == pci_revision_id_canbus) && is_zero a.enable && is_zero a.regions

-- The calls up to register_chrdev_region succeed.
abbrev pub reaches_cdev : Answers → Bool
reaches_cdev a = reaches_iomap a && a.mapped && not a.irq_refused && not (is_neg a.chrdev)

-- The probe reports success exactly when every call succeeded or when the mapping failed: there
-- `result` still holds the 0 of pci_request_regions.
pub pcisimple_probe-zero :
    (a : Answers) (h : Held)
    → ((pcisimple_probe a h).0 ≡ pos 0) ↔ (
        ((reaches_cdev a ≡ true) × (is_zero a.cdev ≡ true))
        ⊎ ((reaches_iomap a ≡ true) × (a.mapped ≡ false)))
unfolding pcisimple_probe
pcisimple_probe-zero a h = (λ e. ground arith, λ e. ground arith)

-- What stays held by the outcome, of a driver that held nothing: all after full success; the
-- allocation when the revision is not the expected one; all but the numbers and the character
-- device when cdev_add fails; nothing otherwise.
pub pcisimple_probe-held :
    (a : Answers)
    → (pcisimple_probe a nothing_held).1 ≡ (
        if a.allocated && not (a.revision == pci_revision_id_canbus)
        then record nothing_held { memory = true }
        else if reaches_cdev a
        then (if is_zero a.cdev
            then all_held
            else record all_held { numbers = false; cdev = false })
        else nothing_held)
unfolding pcisimple_probe
pcisimple_probe-held a = ground arith

-- After a probe that reports success, removal gives everything back if the mapping succeeded, and
-- gives back a second time what the probe released if it did not.
pub pcisimple_remove-probe :
    (a : Answers)
    → (pcisimple_probe a nothing_held).0 ≡ pos 0
    → pcisimple_remove (pcisimple_probe a nothing_held).1
      ≡ (if a.mapped then some nothing_held else none)
unfolding pcisimple_probe pcisimple_remove
pcisimple_remove-probe a e = ground arith
