-- ===== src/Tests/Thread.antt =====
-- The theorems on src/bg_thread.c at buffers that meet their hypotheses.
use eq_data_patcher.Base.{
  ℕ, ◌≡◌, refl, arith, Bool, true, Option, none, some, [], ◌∷◌, ◌==◌, if◌then◌else◌,
}
use eq_data_patcher.Ringbuf.{RingPacket, RingBuf, ringbuf_init, ringbuf_push, value}
use eq_data_patcher.Ringbuf.Holds.{Holds, ringbuf_init-Holds}
use eq_data_patcher.Ringbuf.Push.{ringbuf_push_lem}
use eq_data_patcher.BgThread.{drain, thread_loop, stop_loop}
use eq_data_patcher.BgThread.Rounds.{thread_ends}
use eq_data_patcher.BgThread.Stop.{drain-stop_loop}

abbrev at_once : ℕ → Bool
at_once n = true

abbrev all : ℕ → Bool
all n = true

-- Other packets, and the one with the code to end in the third batch.
abbrev packet_of : ℕ → RingPacket
packet_of k = record { opcode = if k == 2 then 1 else 9; packet_length = 0; payload = value k }

abbrev memory : RingBuf
memory = record {
  blocks =
      λ i. record { next_index = 9; has_been_read = 1; has_been_written = 1; packet = packet_of i };
  read_start = 5;
  read_end = 6;
  write_start = 7;
  write_end = 8;
}

abbrev pushing : ℕ → RingBuf → Option RingBuf
pushing k rb = elim (ringbuf_push at_once 5 rb (packet_of k)) [ none ↦ none | some r ↦ some r.1 ]

pushing_arrives :
    (k : ℕ) (rb : RingBuf)
    → Holds rb []
    → (rb' : RingBuf) × (pushing k rb ≡ some rb') × Holds rb' (packet_of k ∷ [])
pushing_arrives k rb h =
    let (rb', e, h') =
      ringbuf_push_lem at_once rb [] (packet_of k) h 5 0 (omega arith) refl (omega arith) in
    (rb', rw (pushing, e) refl, h')

thread_ends_example :
    (rb : RingBuf) × (thread_loop all 0 at_once 5 3 0 pushing (ringbuf_init memory) ≡ some rb)
thread_ends_example =
    thread_ends all 0 at_once 5 0 (omega arith) refl pushing (λ k. packet_of k ∷ []) pushing_arrives
      2 (ringbuf_init memory) (ringbuf_init-Holds memory) refl

drain-stop_loop_example :
    (rb : RingBuf) × (rb' : RingBuf) × (stop_loop all 0 at_once 5 1 (λ r. r) 0 (ringbuf_init memory)
      ≡ some rb)
    × (drain all 0 at_once 5 129 rb ≡ some (true, rb'))
drain-stop_loop_example =
    drain-stop_loop all 0 at_once 5 0 (omega arith) refl [] (ringbuf_init memory) (λ r. r) 0
      (ringbuf_init-Holds memory) (omega arith)
