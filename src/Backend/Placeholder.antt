-- ===== src/Backend/Placeholder.antt =====
-- The CAN backend of backup/qemu_linux2/qemu-char.c, which takes every frame and sends none.
use linux_qemu.Base.{ℕ, List, none, some, ◌≡◌, ◌==◌, true, refl, arith}
use linux_qemu.Base.Int.{ℤ, pos}
use linux_qemu.Backend
use linux_qemu.Backend.{CharDriverState}
use linux_qemu.Backend.Held.{opened}

unfoldable pub can_chr_write : CharDriverState → List ℕ → ℕ → ℤ
can_chr_write chr buf len = pos 0

unfoldable pub can_chr_close : CharDriverState → CharDriverState
can_chr_close chr = chr

-- g_malloc0 leaves `opaque` NULL; the options are not read.
unfoldable pub qemu_chr_open_can : CharDriverState
qemu_chr_open_can = record { opaque = none }

-- It answers as the later backend does on a socket that takes every frame whole.
can_chr_write-takes_all :
    {W : Type 0} (write : ℕ → List ℕ → ℕ → W → ℤ × W) (fd : ℕ) (buf : List ℕ) (len : ℕ) (w : W)
    → (write fd buf len w).0 ≡ pos len
    → Backend.can_chr_write write (opened fd) buf len w
      ≡ some (can_chr_write qemu_chr_open_can buf len, (write fd buf len w).1)
unfolding Backend.can_chr_write can_chr_write
can_chr_write-takes_all write fd buf len w whole =
    let same : (len == len) ≡ true = ground arith in rw (whole, same) refl
