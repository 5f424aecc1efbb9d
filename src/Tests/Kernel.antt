-- ===== src/Tests/Kernel.antt =====
-- A kernel whose state is the driver's and the controller's, and which hands each system call to
-- the driver's file operation.
use linux_qemu.Base.{Option, none, some, ap, if◌then◌else◌}
use linux_qemu.Base.Int.{ℤ, pos, negsuc, is_neg}
use linux_qemu.Programs.{Syscalls}
use linux_qemu.Programs.Serves.{FileOperations, Serves}

-- What libc returns for the kernel's result.
abbrev pub returned : ℤ → ℤ
returned ret = if is_neg ret then negsuc 0 else ret

module _ {D S M : Type 0} (ops : FileOperations D S M) where
  abbrev pub finish_write : D × S → Option (ℤ × D × S) → ℤ × (D × S)
  finish_write k none = (negsuc 0, k)
  finish_write k (some (ret, d, s)) = (returned ret, (d, s))

  abbrev pub buffer : M → Option M → M
  buffer stale none = stale
  buffer stale (some m) = m

  abbrev pub finish_read : M → D × S → Option (ℤ × Option M × D) → ℤ × M × (D × S)
  finish_read stale k none = (negsuc 0, stale, k)
  finish_read stale (_, s) (some (ret, m, d)) = (returned ret, buffer stale m, (d, s))

  abbrev pub finish_open : ℤ × D × S → ℤ × (D × S)
  finish_open (ret, d, s) = (if is_neg ret then negsuc 0 else pos 3, (d, s))

  abbrev pub kernel : Syscalls (D × S) M
  kernel = record {
    open_file = λ k. finish_open (ops.device_open k.0 k.1);
    write = λ fp m n k. finish_write k (ops.device_write m k.0 k.1);
    read = λ fp stale n k. finish_read stale k (ops.device_read k.0);
    close = λ fp k. (k.0, (ops.device_release k.1).1);
  }

  pub kernel-Serves : Serves kernel ops (λ d s. (d, s)) 3
  kernel-Serves = record {
    opens = λ d d' s s' e. ap finish_open e;
    writes = λ m d d' s s' ret e. ap (finish_write (d, s)) e;
    refuses = λ m d d' s s' error e. ap (finish_write (d, s)) e;
    reads = λ stale m d d' s ret e. ap (finish_read stale (d, s)) e;
    finds_nothing = λ stale d d' s e. ap (finish_read stale (d, s)) e;
    closes = λ d s s' ret e. ap (λ (r : ℤ × S). (d, r.1)) e;
  }
