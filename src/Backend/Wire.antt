-- ===== src/Backend/Wire.antt =====
-- Frames that a device gives to the CAN backend of backup/qemu_linux4/qemu-char.c, on a raw CAN socket.
use linux_qemu.Base.{
  ℕ, zero, suc, List, [], ◌∷◌, ◌++◌, append-nil, append_assoc, length-append, Option, none, some,
  ◌>>=◌, Option-cases, map, ◌≡◌, ◌⊎◌, inl, inr, refl, ap, sym, arith, Ends, Ends-bind, take,
  take-length, true, ◌==◌, length,
}
use linux_qemu.Base.Int.{ℤ, pos, negsuc}
use linux_qemu.Frame.{CanFrame, frame_size}
use linux_qemu.Memory.{bytes_of}
use linux_qemu.Memory.Laws.{length-bytes_of}
use linux_qemu.Backend.{CharDriverState, can_chr_write, qemu_chr_fe_write}
use linux_qemu.Backend.Held.{opened}

-- A struct can_frame in memory: the identifier, the length, three bytes of padding, which nothing sets, and
-- the payload.
unfoldable pub wire : List ℕ → CanFrame → List ℕ
wire pad f = bytes_of 4 f.can_id ++ f.can_dlc ∷ (pad ++ f.bytes)

-- The buffers whose write has returned 0.
pub accepted : List ℤ → List (List ℕ) → List (List ℕ)
accepted [] bufs = []
accepted (r ∷ rs) [] = []
accepted (pos zero ∷ rs) (b ∷ bufs) = b ∷ accepted rs bufs
accepted (pos (suc n) ∷ rs) (b ∷ bufs) = accepted rs bufs
accepted (negsuc n ∷ rs) (b ∷ bufs) = accepted rs bufs

-- sizeof(struct can_frame) bytes.
pub take-wire :
    (pad : List ℕ) (f : CanFrame)
    → length pad ≡ 3
    → length f.bytes ≡ 8
    → take frame_size (wire pad f) ≡ wire pad f
unfolding wire
take-wire pad f three eight =
    let sixteen : length (wire pad f) ≡ 16 = omega (
      arith,
      length-append (bytes_of 4 f.can_id) (f.can_dlc ∷ (pad ++ f.bytes)),
      length-bytes_of 4 f.can_id,
      length-append pad f.bytes,
    ) in
    rw sixteen at (take-length (wire pad f))

accepted-cons :
    (r : ℤ) (rs : List ℤ) (b : List ℕ) (bufs : List (List ℕ))
    → accepted (r ∷ rs) (b ∷ bufs) ≡ accepted (r ∷ []) (b ∷ []) ++ accepted rs bufs
unfolding accepted
accepted-cons (pos zero) rs b bufs = refl
accepted-cons (pos (suc n)) rs b bufs = refl
accepted-cons (negsuc n) rs b bufs = refl

ℤ-cases : (x : ℤ) → ((n : ℕ) × (x ≡ pos n)) ⊎ ((n : ℕ) × (x ≡ negsuc n))
ℤ-cases (pos n) = inl (n, refl)
ℤ-cases (negsuc n) = inr (n, refl)

module _ {W : Type 0} (write : ℕ → List ℕ → ℕ → W → ℤ × W) where
  -- A raw CAN socket: a write puts the whole buffer on the bus as one frame and returns its length, or
  -- fails and puts nothing there.
  pub record IsCanSocket (bus : W → List (List ℕ)) (fd : ℕ) : Type 0 where
    pub whole :
        (buf : List ℕ) (len : ℕ) (w : W) (n : ℕ)
        → (write fd buf len w).0 ≡ pos n
        → (n ≡ len) × (bus (write fd buf len w).1 ≡ bus w ++ take len buf ∷ [])
    pub refused :
        (buf : List ℕ) (len : ℕ) (w : W) (n : ℕ)
        → (write fd buf len w).0 ≡ negsuc n
        → bus (write fd buf len w).1 ≡ bus w

  -- `case 1` of can_mem_write in backup/qemu_linux4/can-pci.c, for each frame in turn.
  unfoldable pub deliver : List ℕ → CharDriverState → List CanFrame → W → Option (List ℤ × W)
  deliver pad chr [] w = some ([], w)
  deliver pad chr (f ∷ fs) w = do
    (ret, w1) ← qemu_chr_fe_write write chr (wire pad f) frame_size w
    (rets, w2) ← deliver pad chr fs w1
    some (ret ∷ rets, w2)

  deliver-append :
      (pad : List ℕ) (chr : CharDriverState) (fs gs : List CanFrame) (w : W)
      → deliver pad chr (fs ++ gs) w ≡ (do
        (rets, w1) ← deliver pad chr fs w
        (more, w2) ← deliver pad chr gs w1
        some (rets ++ more, w2))
  unfolding deliver
  deliver-append pad chr [] gs w = elim (Option-cases (deliver pad chr gs w)) [
    | inl none_left ↦ rw none_left refl
    | inr (r, e) ↦ rw e refl
  ]
  deliver-append pad chr (f ∷ fs) gs w =
      elim (Option-cases (qemu_chr_fe_write write chr (wire pad f) frame_size w)) [
        | inl e ↦ rw e refl
        | inr ((ret, w1), e) ↦
            rw (e, deliver-append pad chr fs gs w1)
              (elim (Option-cases (deliver pad chr fs w1)) [
                | inl d ↦ rw d refl
                | inr ((rets, w2), d) ↦ rw d (elim (Option-cases (deliver pad chr gs w2)) [
                  | inl g ↦ rw g refl
                  | inr ((more, w3), g) ↦ rw g refl
                ])
              ])
      ]

  pub deliver_last :
      (pad : List ℕ) (chr : CharDriverState) (fs : List CanFrame) (f : CanFrame) (w : W)
      → deliver pad chr (fs ++ f ∷ []) w ≡ (do
        (rets, w1) ← deliver pad chr fs w
        (ret, w2) ← qemu_chr_fe_write write chr (wire pad f) frame_size w1
        some (rets ++ ret ∷ [], w2))
  unfolding deliver
  deliver_last pad chr fs f w =
      rw (deliver-append pad chr fs (f ∷ []) w) (elim (Option-cases (deliver pad chr fs w)) [
        | inl d ↦ rw d refl
        | inr ((rets, w1), d) ↦
            rw d (elim (Option-cases (qemu_chr_fe_write write chr (wire pad f) frame_size w1)) [
              | inl e ↦ rw e refl
              | inr ((ret, w2), e) ↦ rw e refl
            ])
      ])

  write_bus :
      (bus : W → List (List ℕ)) (fd : ℕ) (buf : List ℕ) (len : ℕ) (w : W)
      → IsCanSocket bus fd
      → Ends
          (qemu_chr_fe_write write (opened fd) buf len w)
          (λ (ret, w1). bus w1 ≡ bus w ++ accepted (ret ∷ []) (take len buf ∷ []))
  unfolding qemu_chr_fe_write can_chr_write accepted
  write_bus bus fd buf len w sock = elim (ℤ-cases (write fd buf len w).0) [
    | inl (n, e) ↦
        let (all, put) = sock.whole buf len w n e in
        let same : (len == len) ≡ true = ground arith in rw (e, all, same) put
    | inr (n, e) ↦ rw (e, append-nil) (sock.refused buf len w n e)
  ]

  -- On a raw CAN socket: the bus gets the frames whose write returned 0, in the order of the writes and once
  -- each, and nothing of the others.
  pub deliver-accepted :
      (bus : W → List (List ℕ)) (fd : ℕ) (pad : List ℕ) (fs : List CanFrame) (w : W)
      → IsCanSocket bus fd
      → Ends (deliver pad (opened fd) fs w) (λ (rets, w1).
        (length rets ≡ length fs)
        × (bus w1 ≡ bus w ++ accepted rets (map (λ f. take frame_size (wire pad f)) fs)))
  unfolding deliver accepted
  deliver-accepted bus fd pad [] w sock = (refl, sym (append-nil (bus w)))
  deliver-accepted bus fd pad (f ∷ fs) w sock =
      Ends-bind (qemu_chr_fe_write write (opened fd) (wire pad f) frame_size w) _ _
        (write_bus bus fd (wire pad f) frame_size w sock)
        (λ (ret, w1) put.
          Ends-bind (deliver pad (opened fd) fs w1) _ _ (deliver-accepted bus fd pad fs w1 sock)
            (λ (rets, w2) (many, puts).
              let one = take frame_size (wire pad f) in
              let rest = map (λ g. take frame_size (wire pad g)) fs in
              (
                ap suc many,
                rw (puts, put, accepted-cons ret rets one rest)
                    (append_assoc (bus w) (accepted (ret ∷ []) (one ∷ [])) (accepted rets rest)),
              )))

  more-ends :
      (ret : ℤ) (o : Option (List ℤ × W))
      → Ends o (λ x. Unit {0})
      → Ends {A = List ℤ × W} (o >>= λ (rets, w). some (ret ∷ rets, w)) (λ x. Unit {0})
  more-ends ret none ends = ends
  more-ends ret (some x) ends = tt

  -- As long as `opaque` is not NULL, a backend can be called.
  pub deliver-ends :
      (pad : List ℕ) (fd : ℕ) (fs : List CanFrame) (w : W)
      → Ends (deliver pad (opened fd) fs w) (λ x. Unit {0})
  unfolding deliver qemu_chr_fe_write can_chr_write
  deliver-ends pad fd [] w = tt
  deliver-ends pad fd (f ∷ fs) w = more-ends _ _ (deliver-ends pad fd fs _)
