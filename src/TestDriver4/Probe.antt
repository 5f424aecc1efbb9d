-- ===== src/TestDriver4/Probe.antt =====
-- pcisimple_probe and pcisimple_remove of backup/qemu_linux4/qemu_test/qemu_test_pci.c, which map
-- the port region beside the memory region.
pub mod Outcomes
use linux_qemu.Base.{ℕ, Bool, true, false, not, ◌&&◌, ◌==◌, if◌then◌else◌, Option, none, some}
use linux_qemu.Base.Int.{ℤ, pos, is_zero, is_neg, enomem, enodev, eio}
use linux_qemu.Driver.Probe.{pci_revision_id_canbus}

-- The kernel's answers, in the order of the calls: kmalloc, pci_read_config_byte,
-- pci_enable_device, pci_request_regions, pci_iomap twice, request_irq (zero or not),
-- register_chrdev_region, cdev_add.
pub record Answers : Type 0 where
  pub allocated : Bool
  pub revision : ℕ
  pub enable : ℤ
  pub regions : ℤ
  pub mem_mapped : Bool
  pub io_mapped : Bool
  pub irq_refused : Bool
  pub chrdev : ℤ
  pub cdev : ℤ

-- What the driver has been given and has not given back.
pub record Held : Type 0 where
  pub memory : Bool
  pub device : Bool
  pub regions : Bool
  pub mem_base : Bool
  pub io_base : Bool
  pub irq : Bool
  pub numbers : Bool
  pub cdev : Bool

abbrev pub nothing_held : Held
nothing_held = record {
  memory = false;
  device = false;
  regions = false;
  mem_base = false;
  io_base = false;
  irq = false;
  numbers = false;
  cdev = false;
}

-- The labels of the clean-up, each falling through to the next.
abbrev err_enable_device : Held → Held
err_enable_device h = record h { memory = false }

abbrev err_request_regions : Held → Held
err_request_regions h = err_enable_device (record h { device = false })

abbrev err_iomap : Held → Held
err_iomap h = err_request_regions (record h { regions = false })

abbrev err_request_irq : Held → Held
err_request_irq h = err_iomap (record h { io_base = false; mem_base = false })

abbrev err_register_chrdev_region : Held → Held
err_register_chrdev_region h = err_request_irq (record h { irq = false })

-- It returns instead of falling through.
abbrev err_cdev_add : Held → Held
err_cdev_add h = record h { numbers = false }

-- Both pci_iomap calls are made before either result is looked at.
unfoldable pub pcisimple_probe : Answers → Held → ℤ × Held
pcisimple_probe a h0 =
    let h1 = record h0 { memory = true } in
    let h2 = record h1 { device = true } in
    let h3 = record h2 { regions = true } in
    let h4 = record h3 { mem_base = a.mem_mapped; io_base = a.io_mapped } in
    let h5 = record h4 { irq = true } in
    let h6 = record h5 { numbers = true } in
    if not a.allocated
    then (enomem, h0)
    else if not (a.revision == pci_revision_id_canbus)
    then (enodev, h1)
    else if not (is_zero a.enable)
    then (a.enable, err_enable_device h1)
    else if not (is_zero a.regions)
    then (a.regions, err_request_regions h2)
    else if not (a.mem_mapped && a.io_mapped)
    then (a.regions, err_iomap h4)
    else if a.irq_refused
    then (eio, err_request_irq h4)
    else if is_neg a.chrdev
    then (a.chrdev, err_register_chrdev_region h5)
    else if not (is_zero a.cdev)
    then (a.cdev, err_cdev_add h6)
    else (pos 0, record h6 { cdev = true })

-- Giving back what is not held is a fault, `none`.
unfoldable pub pcisimple_remove : Held → Option Held
pcisimple_remove h =
    if not h.cdev
    then none
    else if not h.numbers
    then none
    else if not h.irq
    then none
    else if not h.io_base
    then none
    else if not h.mem_base
    then none
    else if not h.regions
    then none
    else if not h.device
    then none
    else if not h.memory
    then none
    else some nothing_held
