-- ===== src/Programs.antt =====
-- The user programs: source/examples and the main.c of backup/qemu_linux3/qemu_test and of
-- backup/qemu_linux4/qemu_test. The system calls are parameters; what goes to the terminal by
-- perror is left out, and usleep with it.
pub mod Serves
pub mod Maps
pub mod Send
pub mod Receive
pub mod Printed
use linux_qemu.Base.{
  ℕ, zero, suc, ◌+◌, List, [], ◌∷◌, ◌++◌, Option, none, some, ◌>>=◌, Bool, true, false, set,
  if◌then◌else◌, replicate,
}
use linux_qemu.Base.Int.{ℤ, pos, negsuc, is_neg}
use linux_qemu.Frame.{CanFrame, zero_frame, frame_size}
use linux_qemu.Memory.{bytes_of}

-- open, write, read and close on the device's file, for messages of a type M. `K` is the state of
-- everything behind the calls. A read is given what the caller's buffer holds, and returns what it
-- holds afterwards.
pub record Syscalls (K M : Type 0) : Type 0 where
  pub open_file : K → ℤ × K
  pub write : ℤ → M → ℕ → K → ℤ × K
  pub read : ℤ → M → ℕ → K → ℤ × M × K
  pub close : ℤ → K → K

-- The frame that the programs fill in: identifier 0x123 and three bytes.
abbrev pub cansnd : CanFrame
cansnd = record zero_frame {
  can_id = 0x123;
  can_dlc = 3;
  bytes = set (set (set zero_frame.bytes 0 0x12) 1 0x34) 2 0x56;
}

-- (1 << 31) + 0x12345678
abbrev pub second_frame : CanFrame
second_frame = record {
  can_id = 0x9234_5678;
  can_dlc = 6;
  bytes = set (set (set (set (set (set cansnd.bytes 0 0x12) 1 0x34) 2 0x56) 3 0x78) 4 0x90) 5 0xab;
}

-- The frame of backup/qemu_linux3/qemu_test/main.c.
abbrev pub twelve_bit_frame : CanFrame
twelve_bit_frame = record cansnd { can_id = 0x987 }

-- struct can_frame in memory, with the three bytes of padding that memset has cleared.
abbrev pub frame_bytes : CanFrame → List ℕ
frame_bytes f = bytes_of 4 f.can_id ++ (f.can_dlc ∷ 0 ∷ 0 ∷ 0 ∷ f.bytes)

-- if (ret > 0) display(&canrcv);
abbrev pub shown_if_read : {M : Type 0} → ℤ → M → List M → List M
shown_if_read (pos zero) m shown = shown
shown_if_read (pos (suc n)) m shown = m ∷ shown
shown_if_read (negsuc n) m shown = shown

module _ {K M : Type 0} (sys : Syscalls K M) where
  -- The exit status of the program, and the state it leaves.
  pub send_main : M → K → ℕ × K
  send_main message k =
      let (fp, k1) = sys.open_file k in
      let (written, k2) = sys.write fp message frame_size k1 in
      if is_neg fp
      then (1, k1)
      else if is_neg written
      then (1, sys.close fp k2)
      else (0, sys.close fp k2)

  -- main.c of backup/qemu_linux4/qemu_test. The end of main is exit status 0.
  unfoldable pub double_main : M → M → K → ℕ × K
  double_main first second k =
      let (fp, k1) = sys.open_file k in
      let (written, k2) = sys.write fp first frame_size k1 in
      let (written2, k3) = sys.write fp second frame_size k2 in
      if is_neg fp
      then (1, k1)
      else if is_neg written
      then (1, sys.close fp k2)
      else if is_neg written2
      then (1, sys.close fp k3)
      else (0, sys.close fp k3)

  -- main.c of backup/qemu_linux3/qemu_test; with the status come the two things that it shows, the
  -- result of the read and the buffer. `stale` is what the buffer holds before.
  unfoldable pub loopback_main : M → M → K → ℕ × Option (ℤ × M) × K
  loopback_main message stale k =
      let (fp, k1) = sys.open_file k in
      let (written, k2) = sys.write fp message frame_size k1 in
      let (i, canrcv, k3) = sys.read fp stale frame_size k2 in
      if is_neg fp
      then (1, none, k1)
      else if is_neg written
      then (1, none, sys.close fp k2)
      else (0, some (i, canrcv), sys.close fp k3)

  -- `n` rounds of the loop that receive does not leave, with the frames that it shows.
  pub receive_rounds : ℕ → ℤ → M → K → List M × K
  receive_rounds zero fp canrcv k = ([], k)
  receive_rounds (suc n) fp canrcv k =
      let (ret, canrcv', k1) = sys.read fp canrcv frame_size k in
      let (shown, k2) = receive_rounds n fp canrcv' k1 in (shown_if_read ret canrcv' shown, k2)

  -- `none` is exit(EXIT_FAILURE).
  pub receive_main : ℕ → M → K → Option (List M) × K
  unfolding receive_rounds
  receive_main n stale k =
      let (fp, k1) = sys.open_file k in
      let (shown, k2) = receive_rounds n fp stale k1 in
      if is_neg fp then (none, k1) else (some shown, k2)
