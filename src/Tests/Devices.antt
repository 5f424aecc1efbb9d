-- ===== src/Tests/Devices.antt =====
-- The theorems on the emulated controller, at concrete states of its registers.
use linux_qemu.Base.{◌∷◌, none, ◌≡◌, refl, arith, replicate}
use linux_qemu.Frame.{zero_frame}
use linux_qemu.CanPci.{CanState, can_mem_write}
use linux_qemu.CanPci.Registers
use linux_qemu.Tests.Frames.{operating}

-- A buffer that asks for fifteen bytes.
abbrev overlong : CanState
overlong = record operating { trx_buff = 0x0f ∷ replicate 12 0 }

can_mem_write-overflow_example : can_mem_write zero_frame 1 1 overlong ≡ none
can_mem_write-overflow_example =
    Registers.can_mem_write-overflow zero_frame 1 overlong refl refl refl (omega arith)
