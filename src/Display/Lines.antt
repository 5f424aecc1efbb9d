-- ===== src/Display/Lines.antt =====
-- The two lines that a frame is printed as, read back: each says all that it is meant to say.
use linux_qemu.Base.{
  ℕ, ◌^◌, ◌≤◌, ◌<◌, bit_and, List, [], ◌∷◌, ◌++◌, append_assoc, none, Bool, ◌≡◌, refl, arith, ◌==◌,
  if◌then◌else◌, inl, inr, get_or, drop, take, Ends, Option-cases,
}
use linux_qemu.Bits.{has, and_mask}
use linux_qemu.Frame.{CanFrame, IsFrame}
use linux_qemu.Display.{
  line, message_lines, codes, number, items, wide_item, short_item, upper, lower, display,
  display_msg, text,
}
use linux_qemu.Display.Digits.{read_number, read_number-number}
use linux_qemu.Display.Reads.{Reads, Stops, read_items, read_items-items, items-out}

wide_item-Reads : Reads wide_item upper 2 0 (Stops upper)
unfolding read_number
wide_item-Reads = record {
  reads = λ x rest small stops.
      let back =
        read_number-number upper 16 (omega arith) (omega arith) (omega arith) 2 x rest
          (omega arith) in
      ground (arith, append_assoc (number upper 16 2 x) [] rest, back, stops x);
  stops = λ x rest n. refl;
}

short_item-Reads : Reads short_item lower 2 1 (λ t. Unit {0})
unfolding read_number
short_item-Reads = record {
  reads = λ x rest small stops.
      let back =
        read_number-number lower 16 (omega arith) (omega arith) (omega arith) 2 x (32 ∷ rest)
          (omega arith) in
      ground (arith, append_assoc (number lower 16 2 x) (32 ∷ []) rest, back);
  stops = λ x rest. tt;
}

-- What the line of display says: the identifier, the length code, whether it is extended, whether it is
-- remote, and the bytes. The last list is the rest of the text.
abbrev pub Line : Type 0
Line = ℕ × ℕ × Bool × Bool × List ℕ × List ℕ

pub read_display : List ℕ → Line
read_display t0 =
    let (id, t1) = read_number upper 16 0 t0 in
    let (dlc, t2) = read_number upper 10 0 (drop 2 t1) in
    let kind = drop 3 t2 in
    let data_kind = drop 4 kind in
    let (bytes, left) = read_items upper 2 0 dlc (drop 4 data_kind) in
    (id, dlc, get_or kind 0 0 == 69, get_or data_kind 0 0 == 82, bytes, left)

pub read_msg : List ℕ → ℕ × ℕ × List ℕ × List ℕ
read_msg t0 =
    let (id, t1) = read_number lower 16 0 (drop 5 t0) in
    let (dlc, t2) = read_number lower 10 0 (drop 7 t1) in
    let (bytes, left) = read_items lower 2 1 dlc (drop 3 t2) in (id, dlc, bytes, left)

id_small : (x : ℕ) → bit_and x 0x1fff_ffff < 2 ^ 29
id_small x = omega (arith, and_mask 29 x)

shown_items :
    (f : CanFrame)
    → IsFrame f
    → f.can_dlc ≤ 8
    → Ends (items wide_item f.can_dlc 0 f.bytes) (λ shown.
      (read_items upper 2 0 f.can_dlc (shown ++ 10 ∷ []) ≡ (take f.can_dlc f.bytes, 10 ∷ []))
      × Stops upper (shown ++ 10 ∷ []))
unfolding read_number
shown_items f v short =
    read_items-items wide_item upper 2 0 (Stops upper) wide_item-Reads f.can_dlc 0 f.bytes (10 ∷ [])
      v.bytes_fit (omega (arith, v.eight)) (λ n. refl)

read_line :
    (f : CanFrame) (shown : List ℕ)
    → f.can_dlc ≤ 8
    → read_items upper 2 0 f.can_dlc (shown ++ 10 ∷ []) ≡ (take f.can_dlc f.bytes, 10 ∷ [])
    → read_display (line f shown) ≡ (
      bit_and f.can_id 0x1fff_ffff,
      f.can_dlc,
      has f.can_id (2 ^ 31),
      has f.can_id (2 ^ 30),
      take f.can_dlc f.bytes,
      codes "\n",
    )
unfolding read_display read_number
read_line f shown short bytes =
    let kinds = text (
      (if has f.can_id (2 ^ 31) then codes "EFF " else codes "SFF ")
      ∷ (if has f.can_id (2 ^ 30) then codes "RTR-" else codes "DAT-")
      ∷ shown
      ∷ codes "\n"
      ∷ []) in
    let id = bit_and f.can_id 0x1fff_ffff in
    let dlc_back =
      read_number-number upper 10 (omega arith) (omega arith) (omega arith) 1 f.can_dlc
        (codes "] -" ++ kinds) (omega arith) in
    let id_back =
      read_number-number upper 16 (omega arith) (omega arith) (omega arith) 3 id
        (codes " [" ++ (number upper 10 1 f.can_dlc ++ (codes "] -" ++ kinds)))
        (omega (arith, id_small f.can_id)) in
    ground (arith, id_back, dlc_back, bytes)

-- For a frame whose length code is at most eight display ends, and from the line it prints one reads
-- back the identifier without its flags, the length code, the two flags that it shows and as many
-- bytes as the code says, up to the end of the line. For a length code above eight it reads behind data.
pub read_display-display :
    (f : CanFrame)
    → IsFrame f
    → (f.can_dlc ≤ 8
        → Ends (display f) (λ t. read_display t ≡ (
          bit_and f.can_id 0x1fff_ffff,
          f.can_dlc,
          has f.can_id (2 ^ 31),
          has f.can_id (2 ^ 30),
          take f.can_dlc f.bytes,
          codes "\n",
        )))
      × (8 < f.can_dlc → display f ≡ none)
unfolding display
read_display-display f v = (
  λ short. elim (Option-cases (items wide_item f.can_dlc 0 f.bytes)) [
    | inl e ↦ absurd (rw e at (shown_items f v short))
    | inr (shown, e) ↦ rw e (read_line f shown short (rw e at (shown_items f v short)).0)
  ],
  λ long. ground (arith, items-out wide_item f.can_dlc 0 f.bytes, v.eight),
)

shown_short :
    (f : CanFrame)
    → IsFrame f
    → f.can_dlc ≤ 8
    → Ends (items short_item f.can_dlc 0 f.bytes) (λ shown.
      (read_items lower 2 1 f.can_dlc (shown ++ 10 ∷ []) ≡ (take f.can_dlc f.bytes, 10 ∷ []))
      × Unit {0})
shown_short f v short =
    read_items-items short_item lower 2 1 (λ t. Unit {0}) short_item-Reads f.can_dlc 0 f.bytes
      (10 ∷ []) v.bytes_fit (omega (arith, v.eight)) tt

read_message_lines :
    (f : CanFrame) (shown : List ℕ)
    → f.can_dlc ≤ 8
    → read_items lower 2 1 f.can_dlc (shown ++ 10 ∷ []) ≡ (take f.can_dlc f.bytes, 10 ∷ [])
    → read_msg (message_lines f shown)
      ≡ (bit_and f.can_id 0x1fff_ffff, f.can_dlc, take f.can_dlc f.bytes, codes "\n")
unfolding read_msg read_number
read_message_lines f shown short bytes =
    let id = bit_and f.can_id 0x1fff_ffff in
    let after_dlc = codes "):\n" ++ (shown ++ 10 ∷ []) in
    let dlc_back =
      read_number-number lower 10 (omega arith) (omega arith) (omega arith) 1 f.can_dlc after_dlc
        (omega arith) in
    let id_back =
      read_number-number lower 16 (omega arith) (omega arith) (omega arith) 1 id
        (codes ", data(" ++ (number lower 10 1 f.can_dlc ++ after_dlc))
        (omega (arith, id_small f.can_id)) in
    ground (arith, id_back, dlc_back, bytes)

-- For a frame whose length code is at most eight display of main.c, and display_msg, end, and from the
-- lines that they print one reads back the identifier without its flags, the length code and as many
-- bytes as the code says. For a length code above eight they read behind data.
pub read_msg-display_msg :
    (f : CanFrame)
    → IsFrame f
    → (f.can_dlc ≤ 8
        → Ends (display_msg f) (λ t.
          read_msg t
          ≡ (bit_and f.can_id 0x1fff_ffff, f.can_dlc, take f.can_dlc f.bytes, codes "\n")))
      × (8 < f.can_dlc → display_msg f ≡ none)
unfolding display_msg
read_msg-display_msg f v = (
  λ short. elim (Option-cases (items short_item f.can_dlc 0 f.bytes)) [
    | inl e ↦ absurd (rw e at (shown_short f v short))
    | inr (shown, e) ↦ rw e (read_message_lines f shown short (rw e at (shown_short f v short)).0)
  ],
  λ long. ground (arith, items-out short_item f.can_dlc 0 f.bytes, v.eight),
)
