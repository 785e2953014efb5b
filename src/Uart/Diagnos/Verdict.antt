-- ===== src/Uart/Diagnos/Verdict.antt =====
-- What the loopback test answers on what a chip may send.
use linux_learning_by_doing.Prelude.{
  ℕ, zero, suc, ◌+◌, ◌<◌, ◌≡◌, refl, sym, ap, ◌∙◌, Bool, true, false, ◌&&◌, not, List, [], ◌∷◌,
  ◌++◌, append-nil, append_assoc, length, replicate, lt→ltb, if◌then◌else◌, has, pos, neg, arith,
}
use linux_learning_by_doing.Uart.State.{outb}
use linux_learning_by_doing.Uart.Diagnos.{returned, diagnos_read, send, device_diagnos_start}

-- Statuses without the bit `mask`, as the loops poll them.
abbrev pub Idle : ℕ → List ℕ → Type 0
Idle mask [] = Unit
Idle mask (s ∷ ss) = (has s mask ≡ false) × Idle mask ss

-- What comes back for one byte: statuses with no data ready, the status with bit 0, the byte.
pub record Frame : Type 0 where
  pub waits : List ℕ
  pub status : ℕ
  pub byte : ℕ

abbrev pub Comes : List Frame → Type 0
Comes [] = Unit
Comes (f ∷ fs) = Idle 0x01 f.waits × (has f.status 0x01 ≡ true) × Comes fs

-- None of the statuses has an overrun, parity or framing bit.
abbrev pub clean : List Frame → Bool
clean [] = true
clean (f ∷ fs) = not (has f.status 0x0e) && clean fs

abbrev pub frame_reads : Frame → List ℕ → List ℕ
frame_reads f rest = f.waits ++ (f.status ∷ f.byte ∷ rest)

abbrev pub reads : List Frame → List ℕ → List ℕ
reads [] rest = rest
reads (f ∷ fs) rest = frame_reads f (reads fs rest)

-- What is left to read when the loop returns: it stops at the first status with an error bit.
abbrev pub unread : List Frame → List ℕ → List ℕ
unread [] rest = rest
unread (f ∷ fs) rest = if has f.status 0x0e then reads fs rest else unread fs rest

diagnos_read-idle :
    (x y : ℕ) (rest : List ℕ) (r : ℕ) (log : List (ℕ × ℕ))
    → r < 16
    → has x 0x01 ≡ false
    → diagnos_read (x ∷ y ∷ rest) r log ≡ diagnos_read (y ∷ rest) r log
unfolding diagnos_read
diagnos_read-idle x y rest r log lt e = rw (lt→ltb r 16 lt, e)

diagnos_read-wait :
    (ss : List ℕ) (s b : ℕ) (rest : List ℕ) (r : ℕ) (log : List (ℕ × ℕ))
    → r < 16
    → Idle 0x01 ss
    → diagnos_read (ss ++ (s ∷ b ∷ rest)) r log ≡ diagnos_read (s ∷ b ∷ rest) r log
diagnos_read-wait [] s b rest r log lt h = refl
diagnos_read-wait (x ∷ []) s b rest r log lt h = diagnos_read-idle x s (b ∷ rest) r log lt h.0
diagnos_read-wait (x ∷ y ∷ ss) s b rest r log lt h =
    diagnos_read-idle x y (ss ++ (s ∷ b ∷ rest)) r log lt h.0
    ∙ diagnos_read-wait (y ∷ ss) s b rest r log lt h.1

diagnos_read-frame :
    (f : Frame) (rest : List ℕ) (r : ℕ) (log : List (ℕ × ℕ))
    → r < 16
    → Idle 0x01 f.waits
    → has f.status 0x01 ≡ true
    → diagnos_read (frame_reads f rest) r log
      ≡ (if has f.status 0x0e then returned (neg 1) rest log else diagnos_read rest (r + 1) log)
diagnos_read-frame f rest r log lt idle ready =
    diagnos_read-wait f.waits f.status f.byte rest r log lt idle
    ∙ (unfold diagnos_read in rw (lt→ltb r 16 lt, ready))

diagnos_read-end :
    (rest : List ℕ) (log : List (ℕ × ℕ)) → diagnos_read rest 16 log ≡ returned (pos 0) rest log
unfolding diagnos_read
diagnos_read-end [] log = refl
diagnos_read-end (s ∷ []) log = refl
diagnos_read-end (s ∷ b ∷ rest) log = refl

diagnos_read-verdict :
    (fs : List Frame) (rest : List ℕ) (r : ℕ) (log : List (ℕ × ℕ))
    → Comes fs
    → r + length fs ≡ 16
    → diagnos_read (reads fs rest) r log
      ≡ returned (if clean fs then pos 0 else neg 1) (unread fs rest) log
diagnos_read-verdict [] rest r log h e =
    let r16 : r ≡ 16 = omega arith in rw r16 (diagnos_read-end rest log)
diagnos_read-verdict (f ∷ fs) rest r log h e =
    ground
      (arith, diagnos_read-frame f (reads fs rest) r log, diagnos_read-verdict fs rest (r + 1) log)

device_diagnos_start-wait :
    (addr : ℕ) (ss : List ℕ) (s : ℕ) (rest : List ℕ) (log : List (ℕ × ℕ))
    → Idle 0x20 ss
    → has s 0x20 ≡ true
    → device_diagnos_start addr (ss ++ (s ∷ rest)) log ≡ diagnos_read rest 0 (send 16 addr log)
unfolding device_diagnos_start
device_diagnos_start-wait addr [] s rest log h e = rw e
device_diagnos_start-wait addr (x ∷ ss) s rest log h e =
    rw h.0 (device_diagnos_start-wait addr ss s rest log h.1 e)

send_lem : (w addr : ℕ) (log : List (ℕ × ℕ)) → send w addr log ≡ log ++ replicate w (addr, 0xff)
unfolding send
send_lem zero addr log = sym (append-nil log)
send_lem (suc w) addr log =
    send_lem w addr (outb 0xff addr log)
    ∙ append_assoc log ((addr, 0xff) ∷ []) (replicate w (addr, 0xff))

module _ (addr : ℕ) (ss : List ℕ) (s : ℕ) (fs : List Frame) (rest : List ℕ)
    (log : List (ℕ × ℕ)) where
  -- Once the transmitter is ready and 16 bytes come back, each after any wait, the test returns: 0
  -- if no status has an error bit, and -1 if one has, at the first such. It has then sent 0xff
  -- sixteen times and nothing else, and left unread what follows. What the bytes are plays no part.
  pub diagnos_verdict :
      Idle 0x20 ss
      → has s 0x20 ≡ true
      → Comes fs
      → length fs ≡ 16
      → device_diagnos_start addr (ss ++ (s ∷ reads fs rest)) log
        ≡ returned
            (if clean fs then pos 0 else neg 1)
            (unread fs rest)
            (log ++ replicate 16 (addr, 0xff))
  diagnos_verdict idle ready come full =
      device_diagnos_start-wait addr ss s (reads fs rest) log idle ready
      ∙ diagnos_read-verdict fs rest 0 (send 16 addr log) come (omega arith)
      ∙ ap (λ l. returned (if clean fs then pos 0 else neg 1) (unread fs rest) l)
          (send_lem 16 addr log)
