-- ===== src/Backend.antt =====
-- The CAN character backend in backup/qemu_linux4/qemu-char.c (backup/qemu_linux3/qemu-char.c has the same
-- functions): can_chr_write, can_chr_close, qemu_chr_open_can, and qemu_chr_fe_write, through which a device
-- calls it. The kernel's and the allocator's answers are arguments. `none` is an access through NULL.
pub mod Held
pub mod Wire
pub mod Wired
pub mod Guest
pub mod Session
pub mod Sends
pub mod Placeholder
use linux_qemu.Base.{
  ℕ, List, Option, none, some, ◌>>=◌, Bool, true, false, not, ◌==◌, if◌then◌else◌,
}
use linux_qemu.Base.Int.{ℤ, pos, negsuc}

-- The field `size` is never used.
pub record CanCharDriver : Type 0 where
  pub fd : ℕ

-- What a CAN backend sets in its CharDriverState: `opaque` is NULL or points to its CanCharDriver. The
-- function pointers are can_chr_write and can_chr_close below.
pub record CharDriverState : Type 0 where
  pub opaque : Option CanCharDriver

-- The answers to qemu_opt_get, socket, the two g_malloc0, ioctl and bind; `socket` is the descriptor, `none`
-- a negative answer.
pub record Answers : Type 0 where
  pub has_port : Bool
  pub socket : Option ℕ
  pub chr_allocated : Bool
  pub driver_allocated : Bool
  pub ioctl_ok : Bool
  pub bind_ok : Bool

pub record Resources : Type 0 where
  pub socket : Bool
  pub chr : Bool
  pub driver : Bool

abbrev pub no_resources : Resources
no_resources = record { socket = false; chr = false; driver = false }

abbrev pub all_resources : Resources
all_resources = record { socket = true; chr = true; driver = true }

-- From the two allocations on, with the socket `s` open. The labels `fail`, `fail1` and `fail0` free the
-- driver, then the state, then nothing.
pub attach : Answers → ℕ → Resources → Option CharDriverState × Resources
attach a s r1 =
    let r2 = record r1 { chr = true } in
    let r3 = record r2 { driver = true } in
    let fail1 = record r2 { chr = false } in
    let fail = record r3 { driver = false; chr = false } in
    if not a.chr_allocated
    then (none, r1)
    else if not a.driver_allocated
    then (none, fail1)
    else if not a.ioctl_ok
    then (none, fail)
    else if not a.bind_ok
    then (none, fail)
    else (some (record { opaque = some (record { fd = s }) }), r3)

-- The result `none` is NULL.
pub qemu_chr_open_can : Answers → Resources → Option CharDriverState × Resources
qemu_chr_open_can a r0 =
    if not a.has_port
    then (none, r0)
    else elim a.socket [ none ↦ (none, r0) | some s ↦ attach a s (record r0 { socket = true }) ]

pub can_chr_close : CharDriverState → Resources → CharDriverState × Resources
can_chr_close chr r = (record chr { opaque = none }, record r { driver = false })

module _ {W : Type 0} (write : ℕ → List ℕ → ℕ → W → ℤ × W) where
  -- `write` is write(2) with a descriptor, a buffer and a length.
  unfoldable pub can_chr_write : CharDriverState → List ℕ → ℕ → W → Option (ℤ × W)
  can_chr_write chr buf len w = do
    d ← chr.opaque
    let (written, w1) = write d.fd buf len w
    some (elim written [
      | pos n ↦ if n == len then (pos 0, w1) else (negsuc 0, w1)
      | negsuc n ↦ (negsuc 0, w1)
    ])

  unfoldable pub qemu_chr_fe_write : CharDriverState → List ℕ → ℕ → W → Option (ℤ × W)
  qemu_chr_fe_write s buf len w = can_chr_write s buf len w
