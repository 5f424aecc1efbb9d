-- ===== src/Tests/Prints.antt =====
-- What the programs print of concrete frames.
use linux_qemu.Base.{[], ◌∷◌, some, none, ◌≡◌, refl, arith, Ends, map, ◌≤◌, ◌<◌, bit_and, ◌^◌}
use linux_qemu.Base.Int.{pos}
use linux_qemu.Bits.{has}
use linux_qemu.Frame.{zero_frame}
use linux_qemu.Driver.{CanDev, empty_rings}
use linux_qemu.Pelican.Receive.{received}
use linux_qemu.Driver.Repeat.{interrupts}
use linux_qemu.Pelican.Handlers.{irq_handler}
use linux_qemu.Display.{codes, display, display_msg, items, number, digits}
use linux_qemu.Display.Lines.{read_display, read_display-display}
use linux_qemu.Programs.{cansnd, second_frame, twelve_bit_frame, receive_rounds}
use linux_qemu.Programs.Send.{pelican_operations}
use linux_qemu.Programs.Printed.{read_back, said, receive_rounds-prints}
use linux_qemu.Tests.Frames.{sample, remote_extended, remote_extended-IsFrame, receiving}
use linux_qemu.Tests.Kernel.{kernel, kernel-Serves}
use linux_qemu.Tests.Mains.{both_shown}

cansnd_line : display cansnd ≡ some (codes "123 [3] -SFF DAT-  12  34  56\n")
unfolding display items number digits has
cansnd_line = refl

second_lines :
    display_msg second_frame
    ≡ some (codes "id 0x12345678, data(6):\n0x12 0x34 0x56 0x78 0x90 0xab \n")
unfolding display_msg items number digits
second_lines = refl

twelve_bit_lines :
    display_msg twelve_bit_frame ≡ some (codes "id 0x987, data(3):\n0x12 0x34 0x56 \n")
unfolding display_msg items number digits
twelve_bit_lines = refl

zero_line : display zero_frame ≡ some (codes "000 [0] -SFF DAT-\n")
unfolding display items number digits has
zero_line = refl

read_display-display_example :
    (remote_extended.can_dlc ≤ 8
      → Ends (display remote_extended) (λ t. read_display t ≡ (
        bit_and remote_extended.can_id 0x1fff_ffff,
        2,
        has remote_extended.can_id (2 ^ 31),
        has remote_extended.can_id (2 ^ 30),
        7 ∷ 8 ∷ [],
        codes "\n",
      )))
    × (8 < remote_extended.can_dlc → display remote_extended ≡ none)
read_display-display_example = read_display-display remote_extended remote_extended-IsFrame

receive_rounds-prints_example :
    Ends
      (interrupts (irq_handler receiving) 2 empty_rings (sample ∷ remote_extended ∷ []))
      (λ (d1, s1).
        let (shown, k) =
          receive_rounds (kernel (pelican_operations receiving)) 3 (pos 3) zero_frame (d1, s1) in
        (shown ≡ received sample ∷ received remote_extended ∷ [])
        × (map read_back shown ≡ some (said sample) ∷ some (said remote_extended) ∷ [])
        × ((d' : CanDev) × (k ≡ (d', [])) × (d'.rx_count ≡ 0)))
receive_rounds-prints_example =
    let ops = pelican_operations receiving in
    receive_rounds-prints receiving (kernel ops) (λ d s. (d, s)) 3 (kernel-Serves ops)
      (sample ∷ remote_extended ∷ []) 3 zero_frame (sample ∷ remote_extended ∷ []) (omega arith)
      (omega arith) both_shown
