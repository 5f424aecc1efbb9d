-- ===== src/Programs/Maps.antt =====
-- A kernel that serves programs with the driver of source/linux_driver/pelican_mode/can_pci.c on one controller
-- serves them with it on another, where there is a map between the two that every access respects.
use linux_qemu.Base.{ℕ, false}
use linux_qemu.Frame.{CanFrame, Bus, frame_size}
use linux_qemu.Frame.Maps.{IsBusMap}
use linux_qemu.Driver.{CanDev}
use linux_qemu.Driver.Maps.{device_write-mapped}
use linux_qemu.Pelican.{send_message}
use linux_qemu.Pelican.Maps.{send_message-mapped}
use linux_qemu.Pelican.Handlers.{device_write}
use linux_qemu.Pelican.Calls.{device_open-mapped, device_release-mapped}
use linux_qemu.Programs.{Syscalls}
use linux_qemu.Programs.Serves.{Serves}
use linux_qemu.Programs.Send.{pelican_operations}

pub Serves-mapped :
    {K S T : Type 0} {b : Bus S} {c : Bus T} {φ : S → T} {sys : Syscalls K CanFrame}
    {state : CanDev → T → K} {fd : ℕ}
    → IsBusMap b c φ
    → Serves sys (pelican_operations c) state fd
    → Serves sys (pelican_operations b) (λ d s. state d (φ s)) fd
unfolding device_write
Serves-mapped {b = b} {c = c} {φ = φ} m serves =
    let writes =
      device_write-mapped φ b c m (send_message b) (send_message c) (send_message-mapped m) in
    record {
      opens = λ d d' s s' e. serves.opens d d' (φ s) (φ s') (rw e at (device_open-mapped m d s));
      writes = λ f d d' s s' ret e.
          serves.writes f d d' (φ s) (φ s') ret (rw e at (writes frame_size f false d s));
      refuses = λ f d d' s s' error e.
          serves.refuses f d d' (φ s) (φ s') error (rw e at (writes frame_size f false d s));
      reads = λ stale f d d' s ret e. serves.reads stale f d d' (φ s) ret e;
      finds_nothing = λ stale d d' s e. serves.finds_nothing stale d d' (φ s) e;
      closes =
          λ d s s' ret e. serves.closes d (φ s) (φ s') ret (rw e at (device_release-mapped m s));
    }
