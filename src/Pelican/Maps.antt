-- ===== src/Pelican/Maps.antt =====
-- The driver of source/linux_driver/pelican_mode/can_pci.c does the same to two controllers between which
-- there is a map that the accesses respect.
use linux_qemu.Base.{
  ℕ, zero, suc, ◌+◌, List, Option, none, some, ◌>>=◌, Option-cases, inl, inr, Bool-cases, ◌≡◌, refl,
  ap, ◌^◌, ltb, u8, get_elem?,
}
use linux_qemu.Bits.{has}
use linux_qemu.Frame.{CanFrame, Bus}
use linux_qemu.Frame.Maps.{IsBusMap, mapped, mapped₂}
use linux_qemu.Pelican.{
  send_data, send_message, receive_data, extended_id, standard_id, receive_message,
}

module _ {S T : Type 0} {b : Bus S} {c : Bus T} {φ : S → T} (m : IsBusMap b c φ) where
  send_data-mapped :
      (bytes : List ℕ) (n i index : ℕ) (s : S)
      → send_data c bytes n i index (φ s) ≡ mapped φ (send_data b bytes n i index s)
  unfolding send_data
  send_data-mapped bytes zero i index s = refl
  send_data-mapped bytes (suc n) i index s = elim (Option-cases (get_elem? bytes i)) [
    | inl e ↦ simp (send_data, e)
    | inr (x, e) ↦
        simp (send_data, e, m.writes)
          (send_data-mapped bytes n (u8 (i + 1)) (u8 (index + 1)) (b.write8 s index x))
  ]

  -- The commands at the end of send_message.
  finish :
      (o : Option S) (a v : ℕ)
      → (mapped φ o >>= λ t. some (c.write8 t a v)) ≡ mapped φ (o >>= λ s. some (b.write8 s a v))
  finish none a v = refl
  finish (some s) a v = ap some (m.writes s a v)

  pub send_message-mapped :
      (f : CanFrame) (s : S) → send_message c f (φ s) ≡ mapped φ (send_message b f s)
  unfolding send_message
  send_message-mapped f s = elim (Bool-cases (has f.can_id (2 ^ 31))) [
    | inl e ↦ simp (e, m.writes, send_data-mapped, finish)
    | inr e ↦ simp (e, m.writes, send_data-mapped, finish)
  ]

  receive_data-mapped :
      (n i index : ℕ) (bytes : List ℕ) (s : S)
      → receive_data c n i index bytes (φ s) ≡ mapped₂ φ (receive_data b n i index bytes s)
  unfolding receive_data
  receive_data-mapped zero i index bytes s = refl
  receive_data-mapped (suc n) i index bytes s = elim (Bool-cases (ltb i 8)) [
    | inl e ↦ simp (e, m.reads, receive_data-mapped n)
    | inr e ↦ simp e
  ]

  extended_id-mapped :
      (s : S) (id : ℕ)
      → extended_id c (φ s) id
        ≡ ((extended_id b s id).0, (extended_id b s id).1, φ (extended_id b s id).2)
  unfolding extended_id
  extended_id-mapped s id = simp m.reads

  standard_id-mapped :
      (s : S) (id : ℕ)
      → standard_id c (φ s) id
        ≡ ((standard_id b s id).0, (standard_id b s id).1, φ (standard_id b s id).2)
  unfolding standard_id
  standard_id-mapped s id = simp m.reads

  finish₂ :
      (o : Option (List ℕ × S)) (id dlc a v : ℕ)
      → (mapped₂ φ o >>= λ (bytes, t).
          some (record { can_id = id; can_dlc = dlc; bytes = bytes }, c.write8 t a v))
        ≡ mapped₂ {A = CanFrame} φ (
            o >>= λ (bytes, s).
            some (record { can_id = id; can_dlc = dlc; bytes = bytes }, b.write8 s a v))
  finish₂ none id dlc a v = refl
  finish₂ (some (bytes, s)) id dlc a v = simp m.writes

  pub receive_message-mapped : (s : S) → receive_message c (φ s) ≡ mapped₂ φ (receive_message b s)
  unfolding receive_message
  receive_message-mapped s = elim (Bool-cases (has (b.read8 s 16).0 (2 ^ 7))) [
    | inl e ↦ simp (e, m.reads, extended_id-mapped, receive_data-mapped, finish₂)
    | inr e ↦ simp (e, m.reads, standard_id-mapped, receive_data-mapped, finish₂)
  ]
