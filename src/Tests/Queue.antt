-- ===== src/Tests/Queue.antt =====
-- The theorems on src/ringbuf.c at buffers that meet their hypotheses.
use eq_data_patcher.Base.{
  ℕ, zero, suc, ◌<◌, ◌≡◌, refl, arith, Bool, List, [], ◌∷◌, ◌++◌, none, some, ◌==◌, length,
  length-append,
}
use eq_data_patcher.Err.{none_err, out_of_space, again}
use eq_data_patcher.Ringbuf.{RingPacket, RingBuf, ringbuf_init, ringbuf_push, ringbuf_pop, value}
use eq_data_patcher.Ringbuf.Holds.{Holds, ringbuf_init-Holds}
use eq_data_patcher.Ringbuf.Push.{ringbuf_push_lem, ringbuf_push-full}
use eq_data_patcher.Ringbuf.Pop.{ringbuf_pop_lem, ringbuf_pop-empty}

abbrev packet : ℕ → RingPacket
packet n = record { opcode = 1; packet_length = 0; payload = value n }

-- Memory before `ringbuf_init`.
abbrev memory : RingBuf
memory = record {
  blocks =
      λ i. record { next_index = 9; has_been_read = 1; has_been_written = 1; packet = packet i };
  read_start = 5;
  read_end = 6;
  write_start = 7;
  write_end = 8;
}

-- The exchange fails at every try but the one with two tries left.
abbrev third_try : ℕ → Bool
third_try n = n == 2

ringbuf_init-Holds_example : Holds (ringbuf_init memory) []
ringbuf_init-Holds_example = ringbuf_init-Holds memory

ringbuf_push_lem_example :
    (rb' : RingBuf) × (ringbuf_push third_try 5 (ringbuf_init memory) (packet 42)
      ≡ some (none_err, rb'))
    × Holds rb' (packet 42 ∷ [])
ringbuf_push_lem_example =
    ringbuf_push_lem third_try (ringbuf_init memory) [] (packet 42) (ringbuf_init-Holds memory) 5 2
      (omega arith) refl (omega arith)

ringbuf_pop-empty_example :
    ringbuf_pop third_try 5 (ringbuf_init memory) ≡ some (again, none, ringbuf_init memory)
ringbuf_pop-empty_example =
    ringbuf_pop-empty third_try (ringbuf_init memory) 4 (ringbuf_init-Holds memory)

-- Buffers that hold `n` packets.
filled : (n : ℕ) → n < 128 → (rb : RingBuf) × (xs : List RingPacket) × Holds rb xs × (length xs ≡ n)
filled zero h = (ringbuf_init memory, [], ringbuf_init-Holds memory, refl)
filled (suc n) h =
    let (rb, xs, v, e) = filled n (omega arith) in
    let (rb', r, v') =
      ringbuf_push_lem third_try rb xs (packet n) v 3 2 (omega arith) refl (omega arith) in
    (rb', xs ++ packet n ∷ [], v', omega (arith, length-append xs (packet n ∷ [])))

abbrev full : RingBuf
full = (filled 127 (omega arith)).0

ringbuf_push-full_example : ringbuf_push third_try 1 full (packet 42) ≡ some (out_of_space, full)
ringbuf_push-full_example =
    ringbuf_push-full third_try full (filled 127 (omega arith)).1 (packet 42)
      (filled 127 (omega arith)).2 0 (filled 127 (omega arith)).3

-- A buffer with two packets.
abbrev one :
    (rb : RingBuf) × (ringbuf_push third_try 5 (ringbuf_init memory) (packet 42)
      ≡ some (none_err, rb))
    × Holds rb (packet 42 ∷ [])
one =
    ringbuf_push_lem third_try (ringbuf_init memory) [] (packet 42) (ringbuf_init-Holds memory) 5 2
      (omega arith) refl (omega arith)

abbrev two :
    (rb : RingBuf) × (ringbuf_push third_try 5 one.0 (packet 43) ≡ some (none_err, rb))
    × Holds rb (packet 42 ∷ packet 43 ∷ [])
two =
    ringbuf_push_lem third_try one.0 (packet 42 ∷ []) (packet 43) one.2 5 2 (omega arith) refl
      (omega arith)

ringbuf_pop_lem_example :
    (rb' : RingBuf) × (ringbuf_pop third_try 3 two.0 ≡ some (none_err, some (packet 42), rb'))
    × Holds rb' (packet 43 ∷ [])
ringbuf_pop_lem_example =
    ringbuf_pop_lem third_try two.0 (packet 42) (packet 43 ∷ []) two.2 3 2 (omega arith) refl
