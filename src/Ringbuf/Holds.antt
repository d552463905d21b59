-- ===== src/Ringbuf/Holds.antt =====
-- The queue that a buffer of src/ringbuf.c stands for between two calls.
use eq_data_patcher.Base.{
  ℕ, zero, suc, ◌+◌, ◌%◌, ◌<◌, ◌≡◌, ◌≢◌, ◌∙◌, sym, ap, refl, arith, Bool, true, false, List, [],
  some, inl, inr, length, get_elem?, ◌==◌, Bool-cases, ==_iff,
}
use eq_data_patcher.Ringbuf.{
  RingPacket, RingBlock, RingBuf, put_block, reset, reset_loop, ringbuf_init,
}

-- No call is under way, and the packets from `read_end` up to `write_end` are `xs`, oldest first.
pub record Holds (rb : RingBuf) (xs : List RingPacket) : Type 0 where
  pub nexts : (i : ℕ) → i < 128 → (rb.blocks i).next_index ≡ (i + 1) % 128
  pub unread : (i : ℕ) → i < 128 → (rb.blocks i).has_been_read ≡ 0
  pub unwritten : (i : ℕ) → i < 128 → (rb.blocks i).has_been_written ≡ 0
  pub reads : rb.read_start ≡ rb.read_end
  pub writes : rb.write_start ≡ rb.write_end
  pub in_ring : rb.read_end < 128
  pub tail : rb.write_end ≡ (rb.read_end + length xs) % 128
  pub room : length xs < 128
  pub packets :
      (k : ℕ) → k < length xs → get_elem? xs k ≡ some (rb.blocks ((rb.read_end + k) % 128)).packet

pub put_block_same : (bl : ℕ → RingBlock) (i : ℕ) (b : RingBlock) → put_block bl i b i ≡ b
unfolding put_block
put_block_same bl i b = rw ((==_iff i i).1 refl)

pub put_block_other :
    (bl : ℕ → RingBlock) (i j : ℕ) (b : RingBlock) → j ≢ i → put_block bl i b j ≡ bl j
unfolding put_block
put_block_other bl i j b ne = ground arith

-- What is true of the written block, and of every other one below `n`, is true of all below `n`.
pub put_block_all :
    (P : ℕ → RingBlock → Type 0) (bl : ℕ → RingBlock) (i : ℕ) (b : RingBlock) (n : ℕ)
    → P i b
    → ((j : ℕ) → j < n → j ≢ i → P j (bl j))
    → (j : ℕ) → j < n
    → P j (put_block bl i b j)
put_block_all P bl i b n new old j h = elim (Bool-cases (j == i)) [
  | inl same ↦ let e : j ≡ i = (==_iff j i).0 same in rw (e, put_block_same bl i b) new
  | inr other ↦
      let ne : j ≢ i = λ e. ground (arith, e) in rw (put_block_other bl i j b ne) (old j h ne)
]

-- A block as `ringbuf_init` leaves it.
abbrev pub IsReset : ℕ → RingBlock → Type 0
IsReset j b = (b.next_index ≡ (j + 1) % 128) × (b.has_been_read ≡ 0) × (b.has_been_written ≡ 0)

reset_loop-IsReset :
    (left i : ℕ) (bl : ℕ → RingBlock)
    → i + left < 128
    → ((j : ℕ) → j < i → IsReset j (bl j))
    → (j : ℕ) → j < i + left
    → IsReset j (reset_loop left i bl j)
unfolding reset_loop
reset_loop-IsReset zero i bl h old j lt = old j (omega arith)
reset_loop-IsReset (suc left) i bl h old j lt =
    reset_loop-IsReset left (i + 1) (reset bl i (i + 1)) (omega arith)
      (put_block_all IsReset bl i _ (i + 1) (omega arith, refl, refl)
        (λ k lk ne. old k (omega arith)))
      j (omega arith)

-- After `ringbuf_init`, whatever the memory held, the buffer stands for the empty queue.
pub ringbuf_init-Holds : (rb : RingBuf) → Holds (ringbuf_init rb) []
unfolding ringbuf_init
ringbuf_init-Holds rb =
    let first = reset rb.blocks 0 1 in
    let all : (j : ℕ) → j < 128 → IsReset j ((ringbuf_init rb).blocks j) =
      put_block_all IsReset (reset_loop 126 1 first) 127 _ 128 (refl, refl, refl)
        (λ j lt ne.
          reset_loop-IsReset 126 1 first (omega arith)
            (put_block_all IsReset rb.blocks 0 _ 1 (refl, refl, refl)
              (λ k lk nz. absurd (omega arith)))
            j (omega arith)) in
    record {
      nexts = λ i h. (all i h).0;
      unread = λ i h. (all i h).1;
      unwritten = λ i h. (all i h).2;
      reads = refl;
      writes = refl;
      in_ring = omega arith;
      tail = refl;
      room = omega arith;
      packets = λ k lk. absurd (omega arith);
    }

-- The try that succeeds is an earlier one, where this one fails.
pub another_try :
    (weak : ℕ → Bool) (fuel n : ℕ) → n < suc fuel → weak n ≡ true → weak fuel ≡ false → n < fuel
another_try weak fuel n lt e miss = elim (Bool-cases (n == fuel)) [
  | inl same ↦
      let t : n ≡ fuel = (==_iff n fuel).0 same in
      let clash : true ≡ false = sym e ∙ ap weak t ∙ miss in ground (arith, clash)
  | inr other ↦ ground (arith, other, lt)
]
