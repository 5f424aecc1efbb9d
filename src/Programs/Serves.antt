-- ===== src/Programs/Serves.antt =====
-- How the kernel serves the system calls of a program on a character device: by the driver's file
-- operations, with a negative result as -1.
use linux_qemu.Base.{ℕ, Option, some, none, ◌≡◌}
use linux_qemu.Base.Int.{ℤ, pos, negsuc}
use linux_qemu.Frame.{frame_size}
use linux_qemu.Programs.{Syscalls}

-- The file operations of a driver with state `D` on a controller with state `S`, for one message.
pub record FileOperations (D S M : Type 0) : Type 0 where
  pub device_open : D → S → ℤ × D × S
  pub device_write : M → D → S → Option (ℤ × D × S)
  pub device_read : D → Option (ℤ × Option M × D)
  pub device_release : S → ℤ × S

-- open(2), write(2), read(2) and close(2), where the user's buffer can be copied.
pub record Serves {K D S M : Type 0} (sys : Syscalls K M) (ops : FileOperations D S M)
    (state : D → S → K) (fd : ℕ) : Type 0 where
  pub opens :
      (d d' : D) (s s' : S)
      → ops.device_open d s ≡ (pos 0, d', s')
      → sys.open_file (state d s) ≡ (pos fd, state d' s')
  pub writes :
      (m : M) (d d' : D) (s s' : S) (ret : ℕ)
      → ops.device_write m d s ≡ some (pos ret, d', s')
      → sys.write (pos fd) m frame_size (state d s) ≡ (pos ret, state d' s')
  pub refuses :
      (m : M) (d d' : D) (s s' : S) (error : ℕ)
      → ops.device_write m d s ≡ some (negsuc error, d', s')
      → sys.write (pos fd) m frame_size (state d s) ≡ (negsuc 0, state d' s')
  pub reads :
      (stale m : M) (d d' : D) (s : S) (ret : ℕ)
      → ops.device_read d ≡ some (pos ret, some m, d')
      → sys.read (pos fd) stale frame_size (state d s) ≡ (pos ret, m, state d' s)
  pub finds_nothing :
      (stale : M) (d d' : D) (s : S)
      → ops.device_read d ≡ some (pos 0, none, d')
      → sys.read (pos fd) stale frame_size (state d s) ≡ (pos 0, stale, state d' s)
  pub closes :
      (d : D) (s s' : S) (ret : ℤ)
      → ops.device_release s ≡ (ret, s')
      → sys.close (pos fd) (state d s) ≡ state d s'
