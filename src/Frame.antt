-- ===== src/Frame.antt =====
-- struct can_frame, which source/linux_driver/*/can_pci.h, source/examples and
-- backup/qemu_linux4/can-pci.h declare alike, and the bus between a driver and its controller.
pub mod Maps
use linux_qemu.Base.{ℕ, ◌+◌, ◌<◌, ◌^◌, ◌≡◌, List, [], ◌∷◌, length, replicate, zero, suc, take}

-- The field `data` is `bytes` here.
pub record CanFrame : Type 0 where
  pub can_id : ℕ
  pub can_dlc : ℕ
  pub bytes : List ℕ

-- sizeof(struct can_frame): the payload is aligned at 8.
abbrev pub frame_size : ℕ
frame_size = 16

-- A frame of zeros, as memset leaves it.
abbrev pub zero_frame : CanFrame
zero_frame = record { can_id = 0; can_dlc = 0; bytes = replicate 8 0 }

abbrev pub AllBelow : ℕ → List ℕ → Type 0
AllBelow n [] = Unit {0}
AllBelow n (x ∷ xs) = (x < n) × AllBelow n xs

-- The fields hold what their C types can hold.
pub record IsFrame (f : CanFrame) : Type 0 where
  pub id_fits : f.can_id < 2 ^ 32
  pub dlc_fits : f.can_dlc < 256
  pub eight : length f.bytes ≡ 8
  pub bytes_fit : AllBelow 256 f.bytes

-- ioread8 and iowrite8 on the mapped registers of a controller with state `S`. The address is the
-- offset from mem_base. A read may change the controller.
pub record Bus (S : Type 0) : Type 0 where
  pub read8 : S → ℕ → ℕ × S
  pub write8 : S → ℕ → ℕ → S

module _ {S : Type 0} (bus : Bus S) where
  -- Consecutive writes from address `a`.
  abbrev pub write_all : ℕ → List ℕ → S → S
  write_all a [] s = s
  write_all a (x ∷ xs) s = write_all (a + 1) xs (bus.write8 s a x)

  -- Reads from address `a` on give `xs` and leave the controller as it is.
  abbrev pub Shows : S → ℕ → List ℕ → Type 0
  Shows s a [] = Unit {0}
  Shows s a (x ∷ xs) = (bus.read8 s a ≡ (x, s)) × Shows s (a + 1) xs

pub AllBelow-take : (n k : ℕ) (xs : List ℕ) → AllBelow n xs → AllBelow n (take k xs)
AllBelow-take n zero xs h = tt
AllBelow-take n (suc k) [] h = tt
AllBelow-take n (suc k) (x ∷ xs) h = (h.0, AllBelow-take n k xs h.1)
