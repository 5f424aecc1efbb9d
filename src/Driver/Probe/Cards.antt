-- ===== src/Driver/Probe/Cards.antt =====
-- Several cards: pcisimple_probe of source/linux_driver/*/can_pci.c keeps its memory in one variable,
-- `device`, for all of them, and the interrupt handler of every card uses what that variable points to.
use linux_qemu.Base.{
  ℕ, ◌+◌, List, [], ◌∷◌, Option, none, some, Bool, true, false, ◌||◌, ◌≡◌, ◌↔◌, refl, arith, ◌==◌,
  if◌then◌else◌,
}
use linux_qemu.Base.Int.{ℤ}
use linux_qemu.Frame.{AllBelow}
use linux_qemu.Driver.Probe.{Answers, Held, nothing_held, pcisimple_probe}

-- The variable, the blocks that kmalloc has given out and that were not freed, and the next it gives.
pub record Heap : Type 0 where
  pub device : Option ℕ
  pub blocks : List ℕ
  pub fresh : ℕ

-- kmalloc goes into the variable in any case; the block that it gives is `kept`, or freed again.
abbrev pub take_block : Bool → Bool → Heap → Heap
take_block false kept k = record k { device = none }
take_block true kept k = record {
  device = some k.fresh;
  blocks = if kept then k.fresh ∷ k.blocks else k.blocks;
  fresh = k.fresh + 1;
}

-- A probe, with what it leaves in the heap.
unfoldable pub probe_card : Answers → Heap → ℤ × Held × Heap
probe_card a k =
    let (ret, h) = pcisimple_probe a nothing_held in (ret, h, take_block a.allocated h.memory k)

abbrev pub among : ℕ → List ℕ → Bool
among b [] = false
among b (x ∷ xs) = (x == b) || among b xs

-- The variable points to a block that is not freed.
abbrev pub IsLive : Heap → Type 0
IsLive k = (b : ℕ) × (k.device ≡ some b) × (among b k.blocks ≡ true)

among-AllBelow : (n : ℕ) (xs : List ℕ) → AllBelow n xs → among n xs ≡ false
among-AllBelow n [] h = refl
among-AllBelow n (x ∷ xs) h = ground (arith, among-AllBelow n xs h.1)

AllBelow-suc : (n : ℕ) (xs : List ℕ) → AllBelow n xs → AllBelow (n + 1) xs
AllBelow-suc n [] h = tt
AllBelow-suc n (x ∷ xs) h = (omega arith, AllBelow-suc n xs h.1)

-- A probe that holds its interrupt holds its memory, and one that got no memory holds nothing.
holds_memory :
    (a : Answers)
    → let (ret, h) = pcisimple_probe a nothing_held in
      (h.irq ≡ true → h.memory ≡ true) × (h.memory ≡ true → a.allocated ≡ true)
unfolding pcisimple_probe
holds_memory a = ground arith

module _ (k : Heap) (v : AllBelow k.fresh k.blocks) where
  take_block-fresh :
      (got kept : Bool) → let k1 = take_block got kept k in AllBelow k1.fresh k1.blocks
  take_block-fresh false kept = v
  take_block-fresh true false = AllBelow-suc k.fresh k.blocks v
  take_block-fresh true true = (omega arith, AllBelow-suc k.fresh k.blocks v)

  take_block-IsLive :
      (got kept : Bool)
      → (kept ≡ true → got ≡ true)
      → (kept ≡ true) ↔ IsLive (take_block got kept k)
  take_block-IsLive false kept h = (λ e. absurd (cc (h e)), λ (b, e, m). absurd (cc e))
  take_block-IsLive true false h =
      (λ e. absurd (cc e), λ (b, e, m). absurd (cc (e, m, among-AllBelow k.fresh k.blocks v)))
  take_block-IsLive true true h = (λ e. (k.fresh, refl, ground arith), λ live. refl)

-- Two cards are probed, one after the other. Where the first holds its interrupt afterwards, the
-- variable points to a block that is in use. After the second probe it does so if and only if that probe
-- kept its own block: otherwise the interrupt handler of the first card uses a block that is freed, or none.
pub probe_card-probe_card :
    (a1 a2 : Answers) (k : Heap)
    → AllBelow k.fresh k.blocks
    → let (ret1, h1, k1) = probe_card a1 k in
      let (ret2, h2, k2) = probe_card a2 k1 in
      (h1.irq ≡ true → IsLive k1) × ((h2.memory ≡ true) ↔ IsLive k2)
unfolding probe_card
probe_card-probe_card a1 a2 k v =
    let m1 = holds_memory a1 in
    let kept1 = (pcisimple_probe a1 nothing_held).1.memory in
    let k1 : Heap = take_block a1.allocated kept1 k in
    (
      λ held. (take_block-IsLive k v a1.allocated kept1 m1.1).0 (m1.0 held),
      take_block-IsLive k1 (take_block-fresh k v a1.allocated kept1) a2.allocated
          (pcisimple_probe a2 nothing_held).1.memory (holds_memory a2).1,
    )
