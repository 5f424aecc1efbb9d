-- ===== src/Tests/Mains.antt =====
-- The theorems on the user programs, where the kernel's state is the driver's and the controller's.
use linux_qemu.Base.{[], ◌∷◌, ◌++◌, some, ◌≡◌, refl, arith, true, false}
use linux_qemu.Frame.{zero_frame}
use linux_qemu.CanPci
use linux_qemu.CanPci.{guest_bus}
use linux_qemu.CanPci3
use linux_qemu.Driver.Repeat.{Offers}
use linux_qemu.Pelican.Fill.{Offered, release}
use linux_qemu.Pelican.Send.{tx_image}
use linux_qemu.TestDriver3
use linux_qemu.TestDriver4
use linux_qemu.TestDriver4.Deliver.{test_operations, double_main-delivers}
use linux_qemu.Programs.{cansnd, second_frame, double_main}
use linux_qemu.Tests.Frames.{
  sample, sample-IsFrame, remote_extended, remote_extended-IsFrame, reset_state, receiving,
}
use linux_qemu.Tests.TestDrivers.{two_queued}
use linux_qemu.Tests.Kernel.{kernel, kernel-Serves}

double_main-delivers_example :
    (d' : TestDriver4.CanDev) × (u : CanPci.CanState) × (double_main
        (kernel (test_operations 4294967296 200 (guest_bus zero_frame)))
        cansnd
        second_frame
        (two_queued, some reset_state)
      ≡ (0, (d', some u)))
    × (u.chr ≡ [] ++ cansnd ∷ [] ++ second_frame ∷ [])
    × (u.irq ≡ true)
    × (TestDriver4.irq_handler (guest_bus zero_frame) (some u) ≡ some (record u { irq = false }))
double_main-delivers_example =
    let ops = test_operations 4294967296 200 (guest_bus zero_frame) in
    double_main-delivers (kernel ops) zero_frame 4294967296 200 (λ d s. (d, s)) 3
      (kernel-Serves ops) 2 two_queued reset_state (omega arith) (omega arith) (omega arith)
      (record { six = refl; at_most = omega arith; counted = refl; next = refl }) (omega arith) refl
      refl refl

-- The controller has two frames.
pub both_shown :
    Offers
      (Offered receiving)
      (release receiving)
      (sample ∷ remote_extended ∷ [])
      (sample ∷ remote_extended ∷ [])
unfolding tx_image
both_shown = (
  record {
    frame = sample-IsFrame;
    short = omega arith;
    pending = refl;
    shows = (refl, (refl, (refl, (refl, (refl, (refl, tt))))));
  },
  (
    record {
      frame = remote_extended-IsFrame;
      short = omega arith;
      pending = refl;
      shows = (refl, (refl, (refl, (refl, (refl, (refl, (refl, tt)))))));
    },
    tt,
  ),
)
