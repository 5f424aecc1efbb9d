-- ===== src/Tests/Frames.antt =====
-- The frames and controllers that the tests share.
use linux_qemu.Base.{ℕ, List, [], ◌∷◌, ◌++◌, false, arith, replicate, ◌==◌, if◌then◌else◌, get_or}
use linux_qemu.Frame.{CanFrame, IsFrame, Bus, zero_frame}
use linux_qemu.Driver.{CanDev, empty_rings}
use linux_qemu.Pelican.Send.{tx_image}
use linux_qemu.CanPci.{CanState}

-- The frame of source/examples: identifier 0x123, three bytes.
abbrev pub sample : CanFrame
sample = record { can_id = 0x123; can_dlc = 3; bytes = 0x12 ∷ 0x34 ∷ 0x56 ∷ 0 ∷ 0 ∷ 0 ∷ 0 ∷ 0 ∷ [] }

pub sample-IsFrame : IsFrame sample
sample-IsFrame = omega arith

-- A remote frame with a 29-bit identifier.
abbrev pub remote_extended : CanFrame
remote_extended = record { can_id = 0xd234_5678; can_dlc = 2; bytes = 7 ∷ 8 ∷ replicate 6 0 }

pub remote_extended-IsFrame : IsFrame remote_extended
remote_extended-IsFrame = omega arith

-- A standard identifier with bit 2 set.
abbrev pub bit_two : CanFrame
bit_two = record sample { can_id = 0x7ff }

pub bit_two-IsFrame : IsFrame bit_two
bit_two-IsFrame = omega arith

-- A controller whose registers hold what was last written to them.
abbrev pub memory : Bus (ℕ → ℕ)
memory = record { read8 = λ s a. (s a, s); write8 = λ s a v. λ b. if b == a then v else s b }

-- A controller that answers `status` to every read and lists the writes it has seen.
abbrev pub log : ℕ → Bus (List (ℕ × ℕ))
log status = record { read8 = λ s a. (status, s); write8 = λ s a v. s ++ (a, v) ∷ [] }

-- A register file that shows the bytes of a list from address `base` on.
abbrev pub showing : ℕ → List ℕ → ℕ → ℕ
showing base xs a = get_or (replicate base 0 ++ xs) a 0

-- One frame waits in each ring.
abbrev pub one_waiting : CanDev
one_waiting = record empty_rings {
  tx_buf = sample ∷ replicate 5 zero_frame;
  tx_count = 1;
  tx_in = 1;
  rx_buf = remote_extended ∷ replicate 5 zero_frame;
  rx_count = 1;
  rx_in = 1;
}

-- The emulated controller after a hardware reset, and in operation mode.
abbrev pub reset_state : CanState
reset_state = record {
  mode = 1;
  status = 0x0c;
  command = 0;
  trx_buff = replicate 13 0;
  code_mask = replicate 8 0;
  rx_buff = replicate 64 0;
  tx_buff = replicate 13 0;
  irq = false;
  chr = [];
  memio_size = 128;
  timer_armed = false;
  xmit_count = 1;
}

abbrev pub operating : CanState
operating = record reset_state { mode = 0 }

-- A controller that holds frames it has received, in the PeliCAN layout; the command 4 releases the
-- oldest.
abbrev pub receiving : Bus (List CanFrame)
receiving = record {
  read8 = λ s a. elim s [
    | [] ↦ (0, [])
    | f ∷ fs ↦ (if a == 3 then 1 else get_or (replicate 16 0 ++ tx_image f) a 0, f ∷ fs)
  ];
  write8 = λ s a v. elim s [ [] ↦ [] | f ∷ fs ↦ if a == 1 then fs else f ∷ fs ];
}
