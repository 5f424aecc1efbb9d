-- ===== src/Frame/Maps.antt =====
-- Two controllers that a driver cannot tell apart: a map between their states that every access respects.
use linux_qemu.Base.{ℕ, ◌+◌, List, [], ◌∷◌, Option, none, some, ◌≡◌, refl}
use linux_qemu.Frame.{Bus, write_all}

pub record IsBusMap {S T : Type 0} (b : Bus S) (c : Bus T) (φ : S → T) : Type 0 where
  pub reads : (s : S) (a : ℕ) → c.read8 (φ s) a ≡ ((b.read8 s a).0, φ (b.read8 s a).1)
  pub writes : (s : S) (a v : ℕ) → c.write8 (φ s) a v ≡ φ (b.write8 s a v)

-- The map on the outcome of a call that may be undefined, and on one with a result.
abbrev pub mapped : {S T : Type 0} → (S → T) → Option S → Option T
mapped φ none = none
mapped φ (some s) = some (φ s)

abbrev pub mapped₂ : {A S T : Type 0} → (S → T) → Option (A × S) → Option (A × T)
mapped₂ φ none = none
mapped₂ φ (some (a, s)) = some (a, φ s)

abbrev pub mapped₃ : {A B S T : Type 0} → (S → T) → Option (A × B × S) → Option (A × B × T)
mapped₃ φ none = none
mapped₃ φ (some (a, b, s)) = some (a, b, φ s)

module _ {S T : Type 0} {b : Bus S} {c : Bus T} {φ : S → T} (m : IsBusMap b c φ) where
  pub write_all-mapped :
      (a : ℕ) (xs : List ℕ) (s : S) → write_all c a xs (φ s) ≡ φ (write_all b a xs s)
  write_all-mapped a [] s = refl
  write_all-mapped a (x ∷ xs) s = rw (m.writes s a x) (write_all-mapped (a + 1) xs (b.write8 s a x))
