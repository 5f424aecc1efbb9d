-- ===== src/Driver/Threads/Handler.antt =====
-- A whole run of an interrupt handler of source/linux_driver/*/can_pci.c, while a reader and a writer are
-- under way, as steps of Driver.Threads.
use linux_qemu.Base.{
  ℕ, List, [], ◌∷◌, ◌++◌, Option, some, Option-cases, false, ◌==◌, ◌≡◌, ◌⊎◌, inl, inr, refl, sym,
  arith,
}
use linux_qemu.Frame.{CanFrame, Bus}
use linux_qemu.Driver.{CanDev, buffer_size, irq_transmit, irq_receive}
use linux_qemu.Driver.Traffic.Logs.{at, transmit_logs}
use linux_qemu.Driver.Threads.{System, transmits, receives, drifts, Reach, here, later}

module _ {S : Type 0} (bus : Bus S) (send : CanFrame → S → Option S)
    (receive : S → Option (CanFrame × S)) where
  -- What a run of a handler does to the rings: the transmit branch, and with room in the receive ring
  -- perhaps the receive branch; before and after, the controller may change.
  pub record Handled (d : CanDev) (d' : CanDev) : Type 0 where
    pub temp : ℕ
    pub asked : S
    pub between : CanDev
    pub sent : S
    pub transmit : irq_transmit bus send temp d asked ≡ some (between, sent)
    pub rest :
        (d' ≡ between)
        ⊎ (((between.rx_count == buffer_size) ≡ false)
            × ((t : S) × (irq_receive receive between sent ≡ some (d', t))))

  module _ (word : ℕ) (x : System S) where
    -- Reader, writer and their frames are where they were.
    pub record Reached (d' : CanDev) (s' : S) : Type 0 where
      pub end : System S
      pub run : Reach word bus send receive x end
      pub dev : end.dev ≡ d'
      pub controller : end.controller.controller ≡ s'
      pub reader : end.reader ≡ x.reader
      pub writer : end.writer ≡ x.writer
      pub got : end.got ≡ x.got
      pub given : end.given ≡ x.given

    received_one :
        (d d' : CanDev) (s t : S)
        → irq_receive receive d s ≡ some (d', t)
        → (f : CanFrame) × (receive s ≡ some (f, t))
    unfolding irq_receive
    received_one d d' s t e = elim (Option-cases (receive s)) [
      | inl n ↦ absurd (ground (arith, n))
      | inr ((f, u), m) ↦ (f, ground (arith, m))
    ]

    pub Handled-Reached : {d' : CanDev} (s' : S) → Handled x.dev d' → Reached d' s'
    Handled-Reached {d'} s' h =
        let logs =
          transmit_logs bus send receive h.temp x.dev h.between h.asked h.sent x.controller.sent
            h.transmit in
        let log : List CanFrame = logs.0 in
        let x1 : System S = record x { controller = at h.asked x.controller.sent } in
        let x2 : System S = record x { dev = h.between; controller = at h.sent log } in
        let run : Reach word bus send receive x x2 =
          later {y = x1} (later here (drifts refl refl)) (transmits h.temp logs.1 refl) in
        elim h.rest [
          | inl same ↦ record {
            end = record x2 { controller = at s' log };
            run = later run (drifts refl refl);
            dev = sym same;
            controller = refl;
            reader = refl;
            writer = refl;
            got = refl;
            given = refl;
          }
          | inr (room, (t, e)) ↦
              let (f, took) = received_one h.between d' h.sent t e in
              let x3 : System S = record x2 {
                dev = d';
                controller = at t log;
                came = x.came ++ f ∷ [];
              } in
              record {
                end = record x3 { controller = at s' log };
                run = later {y = x3} (later run (receives room took e refl)) (drifts refl refl);
                dev = refl;
                controller = refl;
                reader = refl;
                writer = refl;
                got = refl;
                given = refl;
              }
        ]
