-- ===== src/Tests/Backends.antt =====
-- The CAN backends at concrete inputs.
use linux_qemu.Base.{
  ℕ, ◌+◌, List, [], ◌∷◌, ◌++◌, some, none, ◌≡◌, refl, arith, Ends, map, take, replicate, true,
  false, ◌==◌, if◌then◌else◌,
}
use linux_qemu.Base.Int.{ℤ, pos, negsuc}
use linux_qemu.Frame.{CanFrame, zero_frame, frame_size}
use linux_qemu.Pelican.Receive.{received}
use linux_qemu.Pelican.Handlers.{device_open}
use linux_qemu.Pelican.Calls.{Call, opens, writes, releases, calls}
use linux_qemu.Frame.Maps.{mapped₃}
use linux_qemu.Memory.{bytes_of}
use linux_qemu.CanPci.{CanState, can_pci_init, guest_bus}
use linux_qemu.CanPci.Stream.{write_frames}
use linux_qemu.Backend
use linux_qemu.Backend.Held.{qemu_chr_open_can-held, opened}
use linux_qemu.Backend.Wire.{wire, accepted, IsCanSocket, deliver}
use linux_qemu.Backend.Wired.{wired_bus, wired}
use linux_qemu.Backend.Guest.{calls-wired}
use linux_qemu.Backend.Session.{session_reaches}
use linux_qemu.Backend.Sends.{send_main-reaches}
use linux_qemu.Driver.{CanDev}
use linux_qemu.Programs.{cansnd, send_main}
use linux_qemu.Programs.Send.{pelican_operations}
use linux_qemu.Tests.Kernel.{kernel, kernel-Serves}
use linux_qemu.Tests.Midway.{sample-Carried, remote_extended-Carried}
use linux_qemu.Tests.Frames.{sample, remote_extended, one_waiting, reset_state}

abbrev bind_fails : Backend.Answers
bind_fails = record {
  has_port = true;
  socket = some 5;
  chr_allocated = true;
  driver_allocated = true;
  ioctl_ok = true;
  bind_ok = false;
}

qemu_chr_open_can-held_example :
    Backend.qemu_chr_open_can bind_fails Backend.no_resources
    ≡ (none, record Backend.no_resources { socket = true })
qemu_chr_open_can-held_example = qemu_chr_open_can-held bind_fails

-- How many writes the socket has seen, and the bus.
abbrev Socket : Type 0
Socket = ℕ × List (List ℕ)

-- A socket whose transmit queue is full at its second write.
abbrev busy_once : ℕ → List ℕ → ℕ → Socket → ℤ × Socket
busy_once fd buf len (n, bus) =
    if n == 1 then (negsuc 104, (n + 1, bus)) else (pos len, (n + 1, bus ++ take len buf ∷ []))

busy_once-IsCanSocket : IsCanSocket busy_once (λ w. w.1) 5
busy_once-IsCanSocket = record {
  whole = λ buf len (n, bus) k e. ground arith;
  refused = λ buf len (n, bus) k e. ground arith;
}

abbrev three_frames : List CanFrame
three_frames = sample ∷ remote_extended ∷ sample ∷ []

-- The socket refuses the second of three frames.
session_reaches_example : Ends (can_pci_init true reset_state) (λ s1.
    let (ret, d2, t) =
      device_open
        (wired_bus busy_once (replicate 3 0) (opened 5) zero_frame)
        one_waiting
        (some (s1, (0, []))) in
    (ret ≡ pos 0)
    × Ends
        (write_frames (wired_bus busy_once (replicate 3 0) (opened 5) zero_frame) three_frames d2 t)
        (λ (rets, d3, t3).
          (rets ≡ pos 16 ∷ pos 16 ∷ pos 16 ∷ [])
          × (d3.tx_count ≡ 0)
          × Ends t3 (λ (u, w').
            (answers : List ℤ) × (deliver busy_once
                (replicate 3 0)
                (opened 5)
                (map received three_frames)
                (0, [])
              ≡ some (answers, w'))
            × (w'.1
                ≡ []
                  ++ accepted answers
                      (map (λ f. wire (replicate 3 0) (received f)) three_frames)))))
session_reaches_example =
    session_reaches busy_once (replicate 3 0) 5 zero_frame refl three_frames reset_state one_waiting
      (0, []) (λ w. w.1) busy_once-IsCanSocket refl
      (record { trx_size = refl; mask_size = refl; tx_size = refl }) refl
      (sample-Carried, (remote_extended-Carried, (sample-Carried, tt)))

-- What the bus has after it.
bus_after :
    Ends
      (deliver busy_once (replicate 3 0) (opened 5) (map received three_frames) (0, []))
      (λ (answers, w).
        (answers ≡ pos 0 ∷ negsuc 0 ∷ pos 0 ∷ [])
        × (w.1
            ≡ (0x23 ∷ 1 ∷ 0 ∷ 0 ∷ 3 ∷ 0 ∷ 0 ∷ 0 ∷ 0x12 ∷ 0x34 ∷ 0x56 ∷ replicate 5 0)
              ∷ (0x23 ∷ 1 ∷ 0 ∷ 0 ∷ 3 ∷ 0 ∷ 0 ∷ 0 ∷ 0x12 ∷ 0x34 ∷ 0x56 ∷ replicate 5 0)
              ∷ []))
unfolding deliver Backend.qemu_chr_fe_write Backend.can_chr_write wire received bytes_of
bus_after = (refl, refl)

abbrev open_write_release : List Call
open_write_release = opens ∷ writes 16 sample false ∷ releases ∷ []

calls-wired_example :
    (calls
        (wired_bus busy_once (replicate 3 0) (opened 5) zero_frame)
        open_write_release
        one_waiting
        (some (reset_state, (0, [])))
      ≡ mapped₃
          (wired busy_once (replicate 3 0) (opened 5) (0, []))
          (calls (guest_bus zero_frame) open_write_release one_waiting (some reset_state)))
    × ((u : CanState)
        → Ends (wired busy_once (replicate 3 0) (opened 5) (0, []) (some u)) (λ (v, w1).
          (v ≡ record u { chr = [] })
          × Ends (deliver busy_once (replicate 3 0) (opened 5) u.chr (0, [])) (λ (answers, w2).
            (w1 ≡ w2)
            × (w1.1
                ≡ []
                  ++ accepted answers
                      (map (λ f. take frame_size (wire (replicate 3 0) f)) u.chr)))))
calls-wired_example =
    calls-wired busy_once (replicate 3 0) 5 zero_frame open_write_release one_waiting reset_state
      (0, []) (λ w. w.1) busy_once-IsCanSocket refl

send_main-reaches_example :
    (d' : CanDev) × (u : CanState) × (w' : Socket) × (answers : List ℤ) × (send_main
        (kernel (pelican_operations (wired_bus busy_once (replicate 3 0) (opened 5) zero_frame)))
        cansnd
        (one_waiting, some (reset_state, (0, [])))
      ≡ (0, (d', some (u, w'))))
    × (deliver busy_once (replicate 3 0) (opened 5) (cansnd ∷ []) (0, []) ≡ some (answers, w'))
    × (w'.1 ≡ [] ++ accepted answers (wire (replicate 3 0) cansnd ∷ []))
    × (u.mode ≡ 1)
send_main-reaches_example =
    let ops = pelican_operations (wired_bus busy_once (replicate 3 0) (opened 5) zero_frame) in
    send_main-reaches busy_once (replicate 3 0) 5 zero_frame (kernel ops) (λ d s. (d, s)) 3
      (kernel-Serves ops) one_waiting reset_state (0, []) (λ w. w.1) busy_once-IsCanSocket refl
      (omega arith) refl refl refl refl
