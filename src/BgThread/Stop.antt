-- ===== src/BgThread/Stop.antt =====
-- src/bg_thread.c: what `bg_thread_stop` sends, the thread takes for its end.
use eq_data_patcher.Base.{
  ℕ, suc, ◌<◌, ◌≡◌, inl, inr, refl, arith, Bool, true, Option, some, List, [], ◌∷◌, ◌++◌, ◌==◌,
  length, Bool-cases,
}
use eq_data_patcher.Ringbuf.{RingPacket, RingBuf, ring_packet_init}
use eq_data_patcher.Ringbuf.Holds.{Holds}
use eq_data_patcher.Ringbuf.Push.{ringbuf_push_lem}
use eq_data_patcher.BgThread.{op_terminate, drain, bg_thread_send, stop_loop}
use eq_data_patcher.BgThread.Rounds.{says_end, Drained, drain_lem}

-- The packet that `bg_thread_stop` sends.
abbrev the_end : RingPacket
the_end = ring_packet_init op_terminate 0 0

says_end-the_end : (xs : List RingPacket) → says_end (xs ++ the_end ∷ []) ≡ true
unfolding ring_packet_init
says_end-the_end [] = refl
says_end-the_end (p ∷ xs) = elim (Bool-cases (p.opcode == op_terminate)) [
  | inl stop ↦ rw stop refl
  | inr go ↦ rw go (says_end-the_end xs)
]

module _ (grant : ℕ → Bool) (junk : ℕ) (weak : ℕ → Bool) (tries n : ℕ) (more : n < tries)
    (works : weak n ≡ true) where
  ends_lem :
      (ps : List RingPacket) (r : Option (Bool × RingBuf))
      → says_end ps ≡ true
      → Drained grant junk weak tries n more works ps r
      → (rb : RingBuf) × (r ≡ some (true, rb))
  ends_lem ps r end (rb, inl (_, e)) = (rb, e)
  ends_lem ps r end (rb, inr (go, e, h)) = ground (arith, end, go)

  -- Where the input buffer stands for fewer than 127 packets and the semaphore is triggered,
  -- `bg_thread_stop` sends its packet at the first try, and the thread's next emptying of the
  -- buffer ends with the order to return, where some try below the fuel is one at which the weak
  -- exchange succeeds.
  pub drain-stop_loop :
      (xs : List RingPacket) (input : RingBuf) (meanwhile : RingBuf → RingBuf) (rounds : ℕ)
      → Holds input xs
      → length xs < 127
      → (rb : RingBuf) × (rb' : RingBuf) × (stop_loop grant junk weak tries
            (suc rounds)
            meanwhile
            0
            input
          ≡ some rb)
        × (drain grant junk weak tries 129 rb ≡ some (true, rb'))
  unfolding stop_loop bg_thread_send
  drain-stop_loop xs input meanwhile rounds h room =
      let (rb, e, h') = ringbuf_push_lem weak input xs the_end h tries n more works room in
      let (rb', e') = ends_lem (xs ++ the_end ∷ []) _ (says_end-the_end xs) (
        drain_lem grant junk weak tries n more works (xs ++ the_end ∷ []) rb 129 h'
          (omega (arith, h'.room))) in
      (rb, rb', rw (stop_loop, bg_thread_send, e) refl, e')
