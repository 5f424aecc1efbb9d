-- ===== src/Tests/Runs.antt =====
-- Runs of the models at fixed inputs.
use linux_qemu.Bits.{has}
use linux_qemu.Base.{[], ◌∷◌, some, ◌≡◌, refl}
use linux_qemu.Pelican
use linux_qemu.Tests.Frames.{sample, log}

sample_sent :
    Pelican.send_message (log 0) sample []
    ≡ some ((16, 3) ∷ (17, 0x24) ∷ (18, 0x60) ∷ (19, 0x12) ∷ (20, 0x34) ∷ (21, 0x56) ∷ (1, 1) ∷ [])
unfolding Pelican.send_message Pelican.send_data has
sample_sent = refl
