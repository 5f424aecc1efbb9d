-- ===== src/Memory/Laws.antt =====
-- A read gives back what was written, up to the bytes that the read does not fill.
use linux_qemu.Base.{
  ℕ, zero, suc, ◌+◌, ◌/◌, ◌%◌, ◌^◌, ◌≤◌, ◌<◌, List, [], ◌∷◌, none, some, ◌≡◌, refl, ap, ap₂, ◌∙◌,
  false, ◌⊎◌, arith, Ends, ltb, length, length-set, set, get_or, get_or-set_self, get_or-set_ne,
  take, drop, drop-step,
}
use linux_qemu.Memory.{bytes_of, value_of, overlay, store, load, write, read}

pub length-bytes_of : (size val : ℕ) → length (bytes_of size val) ≡ size
unfolding bytes_of
length-bytes_of zero val = refl
length-bytes_of (suc size) val = ap suc (length-bytes_of size (val / 256))

pub length-overlay : (a : ℕ) (bs mem : List ℕ) → length (overlay a bs mem) ≡ length mem
unfolding overlay
length-overlay a [] mem = refl
length-overlay a (b ∷ bs) mem = length-overlay (a + 1) bs (set mem a b) ∙ length-set mem a b

-- Below the address nothing changes.
get_or-overlay_below :
    (a : ℕ) (bs mem : List ℕ) (i : ℕ) → i < a → get_or (overlay a bs mem) i 0 ≡ get_or mem i 0
unfolding overlay
get_or-overlay_below a [] mem i h = refl
get_or-overlay_below a (b ∷ bs) mem i h =
    get_or-overlay_below (a + 1) bs (set mem a b) i (omega arith)
    ∙ get_or-set_ne mem a i b 0 (omega arith)

-- Nor does it behind the last byte written.
get_or-overlay_above :
    (a : ℕ) (bs mem : List ℕ) (i : ℕ)
    → a + length bs ≤ i
    → get_or (overlay a bs mem) i 0 ≡ get_or mem i 0
unfolding overlay
get_or-overlay_above a [] mem i h = refl
get_or-overlay_above a (b ∷ bs) mem i h =
    get_or-overlay_above (a + 1) bs (set mem a b) i (omega arith)
    ∙ get_or-set_ne mem a i b 0 (omega arith)

-- The bytes written are there.
pub take-drop-overlay :
    (a : ℕ) (bs mem : List ℕ)
    → a + length bs ≤ length mem
    → take (length bs) (drop a (overlay a bs mem)) ≡ bs
unfolding overlay
take-drop-overlay a [] mem h = refl
take-drop-overlay a (b ∷ bs) mem h =
    let mem' = overlay (a + 1) bs (set mem a b) in
    let long : length mem' ≡ length mem =
      length-overlay (a + 1) bs (set mem a b) ∙ length-set mem a b in
    let first : get_or mem' a 0 ≡ b =
      get_or-overlay_below (a + 1) bs (set mem a b) a (omega arith)
      ∙ get_or-set_self mem a b 0 (omega arith) in
    let rest = take-drop-overlay (a + 1) bs (set mem a b) (omega (arith, length-set mem a b)) in
    rw (drop-step mem' a 0 (omega arith)) (ap₂ ◌∷◌ first rest)

-- The low bytes of a variable of four bytes are those copied into it.
value_of-overlay :
    (size val s0 s1 s2 s3 : ℕ)
    → size ≤ 4
    → value_of (overlay 0 (bytes_of size val) (s0 ∷ s1 ∷ s2 ∷ s3 ∷ [])) % 256 ^ size
      ≡ val % 256 ^ size
unfolding value_of overlay bytes_of
value_of-overlay zero val s0 s1 s2 s3 h = omega arith
value_of-overlay (suc zero) val s0 s1 s2 s3 h = omega arith
value_of-overlay (suc (suc zero)) val s0 s1 s2 s3 h = omega arith
value_of-overlay (suc (suc (suc zero))) val s0 s1 s2 s3 h = omega arith
value_of-overlay (suc (suc (suc (suc zero)))) val s0 s1 s2 s3 h = omega arith
value_of-overlay (suc (suc (suc (suc (suc size))))) val s0 s1 s2 s3 h = absurd (omega arith)

-- With eight bytes of the region from the address on, an access of at most four ends; a read after a
-- write gives the value back in its low `size` bytes, whatever the variable held, and the write keeps
-- any byte `i` in front of its own or behind them.
pub read-write :
    (region addr val size s0 s1 s2 s3 i : ℕ) (mem : List ℕ)
    → length mem ≡ region
    → addr + 8 ≤ region
    → size ≤ 4
    → (i < addr) ⊎ (addr + size ≤ i)
    → Ends (write region addr val size mem) (λ mem'.
      Ends
        (read region addr size (s0 ∷ s1 ∷ s2 ∷ s3 ∷ []) mem')
        (λ v. v % 256 ^ size ≡ val % 256 ^ size)
      × (length mem' ≡ region)
      × (get_or mem' i 0 ≡ get_or mem i 0))
unfolding write read
read-write region addr val size s0 s1 s2 s3 i mem fits inside short outside =
    let bs = bytes_of size val in
    let stale = s0 ∷ s1 ∷ s2 ∷ s3 ∷ [] in
    let count = length-bytes_of size val in
    let same = length-overlay addr bs mem in
    let in_region : ltb region addr ≡ false = ground arith in
    let loaded : load addr size (overlay addr bs mem) ≡ some bs =
      unfold load in ground (arith, count, same, take-drop-overlay addr bs mem) in
    let filled : store 0 bs stale ≡ some (overlay 0 bs stale) =
      unfold store in ground (arith, count) in
    let written : store addr bs mem ≡ some (overlay addr bs mem) =
      unfold store in ground (arith, count) in
    let printed : load addr 8 (overlay addr bs mem)
        ≡ some (take 8 (drop addr (overlay addr bs mem))) =
      unfold load in ground (arith, same) in
    rw (in_region, written, printed, loaded, filled)
      (
        value_of-overlay size val s0 s1 s2 s3 short,
        same ∙ fits,
        ground
            (arith, count, get_or-overlay_below addr bs mem i, get_or-overlay_above addr bs mem i),
      )

-- What a write does, by where its address is: behind the region nothing, up to eight bytes before its
-- end the bytes are there, and in between it leaves the memory.
pub write-outcomes :
    (region addr val size : ℕ) (mem : List ℕ)
    → length mem ≡ region
    → size ≤ 8
    → (region < addr → write region addr val size mem ≡ some mem)
      × (addr + 8 ≤ region
          → Ends
              (write region addr val size mem)
              (λ mem'. take size (drop addr mem') ≡ bytes_of size val))
      × (region < addr + 8 → addr ≤ region → write region addr val size mem ≡ none)
unfolding write store load
write-outcomes region addr val size mem fits short =
    let bs = bytes_of size val in
    let count = length-bytes_of size val in
    let same = length-overlay addr bs mem in
    let there = rw count at (take-drop-overlay addr bs mem) in
    (
      λ behind. ground arith,
      λ inside. ground (arith, count, same, there),
      λ near inside. ground (arith, count, same),
    )
