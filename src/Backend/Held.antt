-- ===== src/Backend/Held.antt =====
-- What the CAN backend of backup/qemu_linux4/qemu-char.c keeps open.
use linux_qemu.Base.{
  ◌≡◌, false, ◌&&◌, Option, none, some, arith, if◌then◌else◌, ℕ, inl, inr, Option-cases,
}
use linux_qemu.Backend.{
  Answers, CharDriverState, Resources, no_resources, all_resources, attach, qemu_chr_open_can,
  can_chr_close,
}

-- The backend of a socket.
abbrev pub opened : ℕ → CharDriverState
opened s = record { opaque = some (record { fd = s }) }

-- What opening comes to, with nothing held before.
abbrev pub held : Answers → Option CharDriverState × Resources
held a = elim a.socket [
  | none ↦ (none, no_resources)
  | some s ↦
      if a.has_port && a.chr_allocated && a.driver_allocated && a.ioctl_ok && a.bind_ok
      then (some (opened s), all_resources)
      else (none, record no_resources { socket = a.has_port })
]

-- With nothing held before: opening succeeds exactly when every call does, and then holds socket,
-- state and driver, which has the socket's descriptor. When it fails both allocations are given back, and the
-- socket stays open if it was opened.
pub qemu_chr_open_can-held : (a : Answers) → qemu_chr_open_can a no_resources ≡ held a
unfolding qemu_chr_open_can attach
qemu_chr_open_can-held a = elim (Option-cases a.socket) [
  | inl e ↦ ground (arith, e)
  | inr (s, e) ↦ ground (arith, e)
]

-- Closing a backend that was opened leaves its socket open.
pub can_chr_close_keeps_socket :
    (a : Answers) (chr : CharDriverState)
    → (qemu_chr_open_can a no_resources).0 ≡ some chr
    → can_chr_close chr (qemu_chr_open_can a no_resources).1
      ≡ (record { opaque = none }, record all_resources { driver = false })
unfolding can_chr_close
can_chr_close_keeps_socket a chr h = ground (arith, qemu_chr_open_can-held a)
