-- ===== src/BgThread/Rounds.antt =====
-- src/bg_thread.c: the thread handles what the ring buffer holds, in order, and ends.
use eq_data_patcher.Base.{
  ℕ, zero, suc, ◌+◌, ◌≤◌, ◌<◌, ◌≡◌, ◌⊎◌, inl, inr, refl, arith, Bool, true, false, Option, none,
  some, List, [], ◌∷◌, ◌==◌, length, Bool-cases, ==_iff, sym, ap, ◌∙◌, if◌then◌else◌,
}
use eq_data_patcher.Err.{again}
use eq_data_patcher.Ringbuf.{RingPacket, RingBuf, ringbuf_pop}
use eq_data_patcher.Ringbuf.Holds.{Holds}
use eq_data_patcher.Ringbuf.Pop.{ringbuf_pop_lem, ringbuf_pop-empty}
use eq_data_patcher.BgThread.{op_terminate, after_drain, drain, thread_loop}

-- Some packet says to end.
abbrev pub says_end : List RingPacket → Bool
says_end [] = false
says_end (p ∷ ps) = if p.opcode == op_terminate then true else says_end ps

empty_pop :
    (weak : ℕ → Bool) (rb : RingBuf) (tries n : ℕ)
    → n < tries
    → Holds rb []
    → ringbuf_pop weak tries rb ≡ some (again, none, rb)
empty_pop weak rb zero n lt h = absurd (omega arith)
empty_pop weak rb (suc tries) n lt h = ringbuf_pop-empty weak rb tries h

-- A batch without an end is not the one with the end.
later :
    (batch : ℕ → List RingPacket) (k m : ℕ)
    → k ≤ m
    → says_end (batch k) ≡ false
    → says_end (batch m) ≡ true
    → k + 1 ≤ m
later batch k m from go end = elim (Bool-cases (k == m)) [
  | inl same ↦
      let t : k ≡ m = (==_iff k m).0 same in
      let clash : true ≡ false = sym end ∙ ap (λ i. says_end (batch i)) (sym t) ∙ go in
      ground (arith, clash)
  | inr other ↦ ground (arith, other)
]

module _ (grant : ℕ → Bool) (junk : ℕ) (weak : ℕ → Bool) (tries n : ℕ) (more : n < tries)
    (works : weak n ≡ true) where
  -- The inner loop sees the end, or empties the buffer.
  abbrev pub Drained : List RingPacket → Option (Bool × RingBuf) → Type 0
  Drained ps r =
      (rb' : RingBuf) × (((says_end ps ≡ true) × (r ≡ some (true, rb')))
        ⊎ ((says_end ps ≡ false) × (r ≡ some (false, rb')) × Holds rb' []))

  pub drain_lem :
      (ps : List RingPacket) (rb : RingBuf) (fuel : ℕ)
      → Holds rb ps
      → length ps < fuel
      → Drained ps (drain grant junk weak tries fuel rb)
  unfolding drain
  drain_lem ps rb zero h enough = absurd (omega arith)
  drain_lem [] rb (suc fuel) h enough =
      rw (drain, empty_pop weak rb tries n more h) (rb, inr (refl, refl, h))
  drain_lem (p ∷ ps) rb (suc fuel) h enough =
      let (rb', e, h') = ringbuf_pop_lem weak rb p ps h tries n more works in
      elim (Bool-cases (p.opcode == op_terminate)) [
        | inl stop ↦ (rb', inl (rw stop refl, rw (drain, e, stop) refl))
        | inr go ↦ rw (drain, e, go) (drain_lem ps rb' fuel h' (omega arith))
      ]

  module _ (wait : ℕ → RingBuf → Option RingBuf) (batch : ℕ → List RingPacket)
      (arrives : (k : ℕ) (rb : RingBuf)
        → Holds rb []
        → (rb' : RingBuf) × (wait k rb ≡ some rb') × Holds rb' (batch k)) where
    round_lem :
        (rounds k : ℕ) (ps : List RingPacket) (r : Option (Bool × RingBuf))
        → Drained ps r
        → ((rb : RingBuf)
            → Holds rb []
            → says_end ps ≡ false
            → (rb' : RingBuf) × (thread_loop grant junk weak tries rounds k wait rb ≡ some rb'))
        → (rb' : RingBuf) × (after_drain grant junk weak tries
              (thread_loop grant junk weak tries rounds k wait)
              r
            ≡ some rb')
    round_lem rounds k ps r (rb, inl (stop, e)) next = (rb, rw e refl)
    round_lem rounds k ps r (rb, inr (go, e, h)) next = rw e (next rb h go)

    thread_loop_lem :
        (m rounds k : ℕ) (rb : RingBuf)
        → Holds rb []
        → says_end (batch m) ≡ true
        → k ≤ m
        → m < k + rounds
        → (rb' : RingBuf) × (thread_loop grant junk weak tries rounds k wait rb ≡ some rb')
    unfolding thread_loop
    thread_loop_lem m zero k rb h end from to = absurd (omega arith)
    thread_loop_lem m (suc rounds) k rb h end from to =
        let (rb', e, h') = arrives k rb h in
        rw (thread_loop, e)
          (round_lem rounds (k + 1) (batch k) _
            (drain_lem (batch k) rb' 129 h' (omega (arith, h'.room)))
            (λ rb'' h'' go.
              thread_loop_lem m rounds (k + 1) rb'' h'' end (later batch k m from go end)
                (omega arith)))

    -- Where every wait of the thread returns with a buffer that stands for the next batch of
    -- packets, and the batch with number `m` holds one that says to end, the thread returns
    -- within `m + 1` waits, where some try below the fuel is one at which the weak exchange
    -- succeeds.
    pub thread_ends :
        (m : ℕ) (rb : RingBuf)
        → Holds rb []
        → says_end (batch m) ≡ true
        → (rb' : RingBuf) × (thread_loop grant junk weak tries (m + 1) 0 wait rb ≡ some rb')
    thread_ends m rb h end = thread_loop_lem m (m + 1) 0 rb h end (omega arith) (omega arith)
