-- ===== src/Tests/TestDrivers.antt =====
-- The theorems on the drivers of backup/qemu_linux3 and backup/qemu_linux4, at concrete inputs.
use linux_qemu.Base.{ℕ, List, [], ◌∷◌, ◌≡◌, refl, arith, replicate, Ends, false, set}
use linux_qemu.Base.Int.{pos}
use linux_qemu.Frame.{zero_frame}
use linux_qemu.CanPci3
use linux_qemu.TestDriver3
use linux_qemu.TestDriver4
use linux_qemu.TestDriver4.Queue.{Queued, device_write-counts}
use linux_qemu.Tests.Frames.{sample, log}

abbrev pub second_device : CanPci3.CanState
second_device = record { mem = replicate 32 0; offset = 0; irq = false; chr = [] }

abbrev pub buffer : TestDriver3.CanDev
buffer = record { mem = replicate 96 0 }

abbrev pub stale : List ℕ
stale = 1 ∷ 2 ∷ 3 ∷ 4 ∷ []

-- Two frames wait; the structure has 200 bytes and size_t 32 bits.
abbrev pub two_queued : TestDriver4.CanDev
two_queued = record { tx_buf = replicate 6 zero_frame; tx_count = 400; tx_in = 2 }

device_write-counts_example :
    Ends
      (TestDriver4.device_write (log 0) 4294967296 200 16 sample false two_queued [])
      (λ (ret, d, t).
        (ret ≡ pos 16) × (t ≡ []) × (d.tx_buf ≡ set two_queued.tx_buf 2 sample) × Queued 200 3 d)
device_write-counts_example =
    device_write-counts (log 0) 4294967296 200 2 two_queued [] 16 sample false (omega arith)
      (omega arith) (record { six = refl; at_most = omega arith; counted = refl; next = refl })
