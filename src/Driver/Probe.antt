-- ===== src/Driver/Probe.antt =====
-- pcisimple_probe and pcisimple_remove of source/linux_driver/*/can_pci.c: what the kernel answers
-- to each call is an argument, and the state is what the driver holds.
pub mod Outcomes
pub mod Cards
use linux_qemu.Base.{ℕ, ◌≡◌, Bool, true, false, not, ◌==◌, if◌then◌else◌, Option, none, some}
use linux_qemu.Base.Int.{ℤ, pos, is_zero, is_neg, enomem, enodev, eio}

abbrev pub pci_revision_id_canbus : ℕ
pci_revision_id_canbus = 0x73

-- The kernel's answers, in the order of the calls: kmalloc, pci_read_config_byte,
-- pci_enable_device, pci_request_regions, pci_iomap, request_irq (zero or not),
-- register_chrdev_region, cdev_add.
pub record Answers : Type 0 where
  pub allocated : Bool
  pub revision : ℕ
  pub enable : ℤ
  pub regions : ℤ
  pub mapped : Bool
  pub irq_refused : Bool
  pub chrdev : ℤ
  pub cdev : ℤ

-- What the driver has been given and has not given back.
pub record Held : Type 0 where
  pub memory : Bool
  pub device : Bool
  pub regions : Bool
  pub mapping : Bool
  pub irq : Bool
  pub numbers : Bool
  pub cdev : Bool

abbrev pub nothing_held : Held
nothing_held = record {
  memory = false;
  device = false;
  regions = false;
  mapping = false;
  irq = false;
  numbers = false;
  cdev = false;
}

abbrev pub all_held : Held
all_held = record {
  memory = true;
  device = true;
  regions = true;
  mapping = true;
  irq = true;
  numbers = true;
  cdev = true;
}

-- The labels of the clean-up, each falling through to the next.
err_enable_device : Held → Held
err_enable_device h = record h { memory = false }

err_request_regions : Held → Held
err_request_regions h = err_enable_device (record h { device = false })

err_iomap : Held → Held
err_iomap h = err_request_regions (record h { regions = false })

err_request_irq : Held → Held
err_request_irq h = err_iomap (record h { mapping = false })

err_register_chrdev_region : Held → Held
err_register_chrdev_region h = err_request_irq (record h { irq = false })

-- It returns instead of falling through.
err_cdev_add : Held → Held
err_cdev_add h = record h { numbers = false }

unfoldable pub pcisimple_probe : Answers → Held → ℤ × Held
unfolding err_enable_device err_request_regions err_iomap err_request_irq err_register_chrdev_region
    err_cdev_add
pcisimple_probe a h0 =
    let h1 = record h0 { memory = true } in
    let h2 = record h1 { device = true } in
    let h3 = record h2 { regions = true } in
    let h4 = record h3 { mapping = true } in
    let h5 = record h4 { irq = true } in
    let h6 = record h5 { numbers = true } in
    if not a.allocated
    then (enomem, h0)
    else if not (a.revision == pci_revision_id_canbus)
    then (enodev, h1)
    else if not (is_zero a.enable)
    then (a.enable, err_enable_device h1)
    else if not (is_zero a.regions)
    then (a.regions, err_request_regions h2)
    else if not a.mapped
    then (a.regions, err_iomap h3)
    else if a.irq_refused
    then (eio, err_request_irq h4)
    else if is_neg a.chrdev
    then (a.chrdev, err_register_chrdev_region h5)
    else if not (is_zero a.cdev)
    then (a.cdev, err_cdev_add h6)
    else (pos 0, record h6 { cdev = true })

-- Giving back what is not held is a fault, `none`: it was given back before, or never obtained.
unfoldable pub pcisimple_remove : Held → Option Held
pcisimple_remove h =
    let h1 = record h { cdev = false } in
    let h2 = record h1 { numbers = false } in
    let h3 = record h2 { irq = false } in
    let h4 = record h3 { mapping = false } in
    let h5 = record h4 { regions = false } in
    let h6 = record h5 { device = false } in
    if not h.cdev
    then none
    else if not h1.numbers
    then none
    else if not h2.irq
    then none
    else if not h3.mapping
    then none
    else if not h4.regions
    then none
    else if not h5.device
    then none
    else if not h6.memory
    then none
    else some (record h6 { memory = false })
