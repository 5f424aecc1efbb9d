-- ===== src/Tests/Transfers.antt =====
-- The theorems on frames that move between driver and controller, at concrete frames.
use linux_qemu.Base.{[], ◌∷◌, ◌++◌, some, ◌≡◌, refl, inl, inr, true, arith, replicate}
use linux_qemu.Frame.{zero_frame, write_all}
use linux_qemu.Pelican
use linux_qemu.Pelican.Send
use linux_qemu.Pelican.Receive
use linux_qemu.Basic
use linux_qemu.Basic.Transfer
use linux_qemu.CanPci.{guest_bus}
use linux_qemu.CanPci.Link.{send_message-delivers}
use linux_qemu.Tests.Frames.{
  sample, sample-IsFrame, remote_extended, remote_extended-IsFrame, bit_two, bit_two-IsFrame,
  memory, log, showing, operating,
}

send_message-tx_image_example :
    Pelican.send_message (log 0) remote_extended []
    ≡ some (write_all (log 0) 16 (Send.tx_image remote_extended) [] ++ (1, 1) ∷ [])
send_message-tx_image_example =
    Send.send_message-tx_image (log 0) remote_extended [] remote_extended-IsFrame (omega arith)
      (inl refl)

receive_message-tx_image_example :
    Pelican.receive_message memory (showing 16 (Send.tx_image remote_extended))
    ≡ some (
      Receive.received remote_extended,
      memory.write8 (showing 16 (Send.tx_image remote_extended)) 1 4,
    )
unfolding Send.tx_image
receive_message-tx_image_example =
    Receive.receive_message-tx_image memory remote_extended
      (showing 16 (Send.tx_image remote_extended)) remote_extended-IsFrame (omega arith)
      (refl, (refl, (refl, (refl, (refl, (refl, (refl, tt)))))))

send_message-basic_image_example :
    Basic.send_message (log 0) bit_two []
    ≡ some (write_all (log 0) 10 (Transfer.tx_image bit_two) [] ++ (1, 1) ∷ [])
send_message-basic_image_example =
    Transfer.send_message-basic_image (log 0) bit_two [] bit_two-IsFrame (omega arith)

receive_message-basic_image_example :
    Basic.receive_message memory (showing 20 (Transfer.tx_image bit_two))
    ≡ some (Transfer.received bit_two, memory.write8 (showing 20 (Transfer.tx_image bit_two)) 1 4)
unfolding Transfer.tx_image
receive_message-basic_image_example =
    Transfer.receive_message-basic_image memory bit_two (showing 20 (Transfer.tx_image bit_two))
      bit_two-IsFrame (omega arith) (refl, (refl, (refl, (refl, (refl, tt)))))

send_message-delivers_example :
    let buff = Send.tx_image sample ++ replicate 7 0 in
    Pelican.send_message (guest_bus zero_frame) sample (some operating)
    ≡ some (
        some (record operating {
          trx_buff = buff;
          tx_buff = buff;
          chr = Receive.received sample ∷ [];
          irq = true;
        }))
unfolding Send.tx_image
send_message-delivers_example =
    send_message-delivers zero_frame sample operating (omega arith) refl sample-IsFrame
      (omega arith) (inr refl) (inr refl) refl
