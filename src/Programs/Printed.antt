-- ===== src/Programs/Printed.antt =====
-- What source/examples/pelican_mode/receive.c prints of the frames that the controller offers.
use linux_qemu.Base.{
  ℕ, zero, suc, ◌-◌, ◌%◌, ◌^◌, ◌≤◌, ◌<◌, bit_and, List, [], ◌∷◌, ◌++◌, Option, ◌>>=◌, some, ◌≡◌,
  refl, ap, ap₂, arith, ◌∙◌, if◌then◌else◌, inl, inr, map, length, replicate, take, Ends,
  Ends-weaken, Option-cases,
}
use linux_qemu.Base.Int.{pos}
use linux_qemu.Bits.{has, has_bit, and_mask}
use linux_qemu.Frame.{CanFrame, Bus, IsFrame, AllBelow, AllBelow-take}
use linux_qemu.Display.{display, codes}
use linux_qemu.Display.Lines.{Line, read_display, read_display-display}
use linux_qemu.Driver.{CanDev, empty_rings}
use linux_qemu.Driver.Repeat.{interrupts, Offers, released}
use linux_qemu.Pelican.Handlers.{irq_handler}
use linux_qemu.Pelican.Fill.{Offered, release}
use linux_qemu.Programs.{Syscalls, receive_rounds}
use linux_qemu.Programs.Serves.{Serves}
use linux_qemu.Programs.Send.{pelican_operations}
use linux_qemu.Programs.Receive.{receive_rounds-all_shown}
use linux_qemu.Pelican.Send.{is_extended, is_remote}
use linux_qemu.Pelican.Receive.{received-eight, received, received_id}

-- What the terminal is to say of a frame on the bus.
abbrev pub said : CanFrame → Line
said f = (
  if is_extended f then f.can_id % 2 ^ 29 else f.can_id % 2 ^ 11,
  f.can_dlc,
  is_extended f,
  is_remote f,
  take f.can_dlc f.bytes,
  codes "\n",
)

-- What a reader of the terminal learns.
abbrev pub read_back : CanFrame → Option Line
read_back msg = do t ← display msg; some (read_display t)

AllBelow-append : (n : ℕ) (xs ys : List ℕ) → AllBelow n xs → AllBelow n ys → AllBelow n (xs ++ ys)
AllBelow-append n [] ys h k = k
AllBelow-append n (x ∷ xs) ys h k = (h.0, AllBelow-append n xs ys h.1 k)

AllBelow-replicate : (n k : ℕ) → 0 < n → AllBelow n (replicate k 0)
AllBelow-replicate n zero h = tt
AllBelow-replicate n (suc k) h = (h, AllBelow-replicate n k h)

take-append : (n : ℕ) (xs ys : List ℕ) → n ≤ length xs → take n (take n xs ++ ys) ≡ take n xs
take-append zero xs ys h = refl
take-append (suc n) [] ys h = absurd (omega arith)
take-append (suc n) (x ∷ xs) ys h = ap (λ t. x ∷ t) (take-append n xs ys (omega arith))

received-IsFrame : (f : CanFrame) → IsFrame f → f.can_dlc ≤ 8 → IsFrame (received f)
unfolding received
received-IsFrame f v short = record {
  id_fits = ground arith;
  dlc_fits = v.dlc_fits;
  eight = received-eight f v.eight short;
  bytes_fit =
      AllBelow-append 256 (take f.can_dlc f.bytes) (replicate (8 - f.can_dlc) 0)
        (AllBelow-take 256 f.can_dlc f.bytes v.bytes_fit)
        (AllBelow-replicate 256 (8 - f.can_dlc) (omega arith));
}

received-dlc : (f : CanFrame) → (received f).can_dlc ≡ f.can_dlc
unfolding received
received-dlc f = refl

received-fields :
    (f : CanFrame)
    → length f.bytes ≡ 8
    → f.can_dlc ≤ 8
    → (
      bit_and (received f).can_id 0x1fff_ffff,
      (received f).can_dlc,
      has (received f).can_id (2 ^ 31),
      has (received f).can_id (2 ^ 30),
      take (received f).can_dlc (received f).bytes,
      codes "\n",
    )
      ≡ said f
unfolding received
received-fields f eight short =
    let id = received_id f in
    let bytes = take-append f.can_dlc f.bytes (replicate (8 - f.can_dlc) 0) (omega arith) in
    ground (arith, and_mask 29 id, has_bit 31 id, has_bit 30 id, bytes)

-- The line that a received frame is printed as says what was offered.
read_back-received :
    (f : CanFrame) → IsFrame f → f.can_dlc ≤ 8 → read_back (received f) ≡ some (said f)
read_back-received f v short =
    let dlc : (received f).can_dlc ≤ 8 = rw (received-dlc f) short in
    let printed = (read_display-display (received f) (received-IsFrame f v short)).0 dlc in
    elim (Option-cases (display (received f))) [
      | inl e ↦ absurd (rw e at printed)
      | inr (t, e) ↦ rw (e, read_back) (ap some (rw e at printed ∙ received-fields f v.eight short))
    ]

module _ {S : Type 0} (bus : Bus S) where
  map-read_back :
      (fs : List CanFrame) (s : S)
      → Offers (Offered bus) (release bus) s fs
      → map read_back (map received fs) ≡ map (λ f. some (said f)) fs
  map-read_back [] s offers = refl
  map-read_back (f ∷ fs) s (offered, offers) =
      ap₂ ◌∷◌ (read_back-received f offered.frame offered.short)
        (map-read_back fs (release bus s) offers)

module _ {K S : Type 0} (bus : Bus S) (sys : Syscalls K CanFrame) (state : CanDev → S → K) (fd : ℕ)
    (serves : Serves sys (pelican_operations bus) state fd) where
  -- Where the kernel serves the program with the driver, from empty rings and without other
  -- interrupts: after as many receive interrupts as the controller has frames to offer, up to six, as
  -- many rounds of the loop or more show exactly these frames, as the format carries them and in the
  -- order in which they came, and leave none. For each of them a line is printed, from which one reads
  -- back the 29 or 11 bits of its identifier, its length code, its two flags and its bytes.
  pub receive_rounds-prints :
      (fs : List CanFrame) (n : ℕ) (stale : CanFrame) (s : S)
      → length fs ≤ 6
      → length fs ≤ n
      → Offers (Offered bus) (release bus) s fs
      → Ends (interrupts (irq_handler bus) (length fs) empty_rings s) (λ (d1, s1).
        let (shown, k) = receive_rounds sys n (pos fd) stale (state d1 s1) in
        (shown ≡ map received fs)
        × (map read_back shown ≡ map (λ f. some (said f)) fs)
        × ((d' : CanDev) × (k ≡ state d' (released (release bus) fs s)) × (d'.rx_count ≡ 0)))
  receive_rounds-prints fs n stale s six enough offers =
      Ends-weaken (interrupts (irq_handler bus) (length fs) empty_rings s)
        (λ r (d', shown, empty). rw shown (refl, map-read_back bus fs s offers, (d', refl, empty)))
        (receive_rounds-all_shown bus sys state fd serves fs n stale s six enough offers)
