-- ===== src/Driver/Threads/Queues.antt =====
-- The two queues that the driver of Driver.Threads promises, and the operations on them.
use linux_qemu.Base.{
  ◌<◌, List, [], ◌∷◌, ◌++◌, append-nil, true, ◌≡◌, ◌⊎◌, inl, inr, refl, sym, ap, length,
}
use linux_qemu.Frame.{CanFrame}
use linux_qemu.Driver.Traffic.Moves.{Move, idles, queues, passes, sends}

-- What the driver promises: a queue of at most six frames in each direction, and who has had which frame.
pub record Queues : Type 0 where
  pub rx : List CanFrame
  pub tx : List CanFrame
  pub sent : List CanFrame
  pub got : List CanFrame
  pub came : List CanFrame
  pub given : List CanFrame

-- The operations on the queues.
pub data Act (q q' : Queues) : Type 0 where
  rests : q' ≡ q → Act q q'
  pops :
      (f : CanFrame) (rest : List CanFrame)
      → q.rx ≡ f ∷ rest
      → q' ≡ record q { rx = rest; got = q.got ++ f ∷ [] }
      → Act q q'
  arrives :
      (f : CanFrame)
      → length q.rx < 6
      → q' ≡ record q { rx = q.rx ++ f ∷ []; came = q.came ++ f ∷ [] }
      → Act q q'
  enters :
      (f : CanFrame)
      → length q.tx < 6
      → q' ≡ record q { tx = q.tx ++ f ∷ []; given = q.given ++ f ∷ [] }
      → Act q q'
  overtakes :
      (f : CanFrame)
      → length q.tx < 6
      → q' ≡ record q { sent = q.sent ++ f ∷ []; given = q.given ++ f ∷ [] }
      → Act q q'
  leaves :
      (f : CanFrame) (rest : List CanFrame)
      → q.tx ≡ f ∷ rest
      → q' ≡ record q { tx = rest; sent = q.sent ++ f ∷ [] }
      → Act q q'

pub data Acts (q : Queues) : Queues → Type 0 where
  still : Acts q q
  more : {r t : Queues} → Acts q r → Act r t → Acts q t

-- At most one frame, and one only where there is room.
abbrev pub Short : List CanFrame → Queues → Type 0
Short h q = (h ≡ []) ⊎ ((f : CanFrame) × (h ≡ f ∷ []) × (length q.tx < 6))

pub pop-Act :
    (q : Queues) (h rest : List CanFrame)
    → q.rx ≡ h ++ rest
    → (h ≡ []) ⊎ ((f : CanFrame) × (h ≡ f ∷ []))
    → Act q (record q { rx = rest; got = q.got ++ h })
pop-Act q h rest e (inl none) =
    rests (rw (none, append-nil) (rw none at (ap (λ r. record q { rx = r }) (sym e))))
pop-Act q h rest e (inr (f, one)) = pops f rest (rw one at e) (rw one refl)

pub Move-Act :
    (q : Queues) {h w' s' : List CanFrame}
    → Move true h q.tx q.sent w' s'
    → Short h q
    → Act q (record q { tx = w'; sent = s'; given = q.given ++ h })
Move-Act q (idles none ew es) short = rests (rw (ew, es, none, append-nil) refl)
Move-Act q (queues some_taken ew es) (inl none) = absurd (some_taken none)
Move-Act q (queues some_taken ew es) (inr (f, one, room)) = enters f room (rw (ew, es, one) refl)
Move-Act q (passes free ew es) (inl none) =
    rests (rw (ew, es, none, append-nil q.sent, append-nil q.given) refl)
Move-Act q (passes free ew es) (inr (f, one, room)) = overtakes f room (rw (ew, es, one) refl)
Move-Act q {w' = w'} (sends f none ew es) short = leaves f w' ew (rw (es, none, append-nil) refl)
