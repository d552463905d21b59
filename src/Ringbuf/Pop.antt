-- ===== src/Ringbuf/Pop.antt =====
-- `ringbuf_pop` of src/ringbuf.c: the front of a queue.
use eq_data_patcher.Base.{
  ℕ, zero, suc, ◌+◌, ◌%◌, ◌<◌, ◌≡◌, ◌≢◌, ◌∙◌, sym, ap, refl, arith, Bool, true, false, inl, inr,
  List, [], ◌∷◌, Option, none, some, length, ◌==◌, Bool-cases, ==_iff,
}
use eq_data_patcher.Err.{none_err, again}
use eq_data_patcher.Ringbuf.{
  RingPacket, RingBlock, RingBuf, put_block, advance_read, pop_impl, popped, ringbuf_pop,
}
use eq_data_patcher.Ringbuf.Holds.{
  Holds, put_block_same, put_block_other, put_block_all, another_try,
}
use eq_data_patcher.Ringbuf.Push.{eqb_refl, next_ne}

-- The state after a pop: no packet is erased.
abbrev taken_blocks : RingBuf → ℕ → RingBlock
taken_blocks rb =
    let r = rb.read_end in
    let marked = put_block rb.blocks r (record (rb.blocks r) { has_been_read = 1 }) in
    put_block marked r (record (marked r) { has_been_read = 0 })

abbrev taken : RingBuf → RingBuf
taken rb =
    let next = (rb.blocks rb.read_end).next_index in
    record rb { blocks = taken_blocks rb; read_start = next; read_end = next }

advance_read_stop :
    (fuel : ℕ) (rb : RingBuf)
    → (rb.blocks rb.read_start).has_been_read ≡ 0
    → advance_read (suc fuel) rb ≡ some rb
unfolding advance_read
advance_read_stop fuel rb h = rw h

-- The state after one round of the loop.
abbrev read_round : RingBuf → RingBuf
read_round rb =
    let b = rb.blocks rb.read_start in
    record rb {
      blocks = put_block rb.blocks rb.read_start (record b { has_been_read = 0 });
      read_start = b.next_index;
    }

advance_read_once :
    (fuel : ℕ) (rb : RingBuf)
    → (rb.blocks rb.read_start).has_been_read ≡ 1
    → advance_read (suc fuel) rb ≡ advance_read fuel (read_round rb)
unfolding advance_read
advance_read_once fuel rb h = rw (h, eqb_refl rb.read_start)

-- One block is read: the loop stops behind it.
advance_read_one :
    (fuel : ℕ) (rb : RingBuf) (next : ℕ)
    → (rb.blocks rb.read_start).has_been_read ≡ 1
    → (rb.blocks rb.read_start).next_index ≡ next
    → next ≢ rb.read_start
    → (rb.blocks next).has_been_read ≡ 0
    → advance_read (suc (suc fuel)) rb ≡ some (read_round rb)
advance_read_one fuel rb next h e ne z =
    advance_read_once (suc fuel) rb h
    ∙ advance_read_stop fuel (read_round rb)
        (rw e (ap (λ b. b.has_been_read) (put_block_other rb.blocks rb.read_start next _ ne) ∙ z))

abbrev with_packet : RingPacket → Option RingBuf → Option (RingPacket × RingBuf)
with_packet p o = elim o [ none ↦ Option.none | some rb ↦ some (p, rb) ]

pop_impl_lem :
    (rb : RingBuf) (xs : List RingPacket)
    → Holds rb xs
    → pop_impl (record rb { read_end = (rb.blocks rb.read_end).next_index }) rb.read_end
      ≡ some ((rb.blocks rb.read_end).packet, taken rb)
unfolding pop_impl
pop_impl_lem rb xs v =
    let r = rb.read_end in
    let low = v.in_ring in
    let b : RingBlock = record (rb.blocks r) { has_been_read = 1 } in
    let same = put_block_same rb.blocks r b in
    let ne = next_ne r low in
    ap (with_packet (rb.blocks r).packet) {y = some (taken rb)} (
      rw v.reads (
        advance_read_one 127
          (record rb {
            blocks = put_block rb.blocks r b;
            read_start = r;
            read_end = (rb.blocks r).next_index;
          })
          ((r + 1) % 128) (ap (λ b. b.has_been_read) same)
          (ap (λ b. b.next_index) same ∙ v.nexts r low) ne
          (ap (λ b. b.has_been_read) (put_block_other rb.blocks r ((r + 1) % 128) b ne)
            ∙ v.unread ((r + 1) % 128) (omega arith))
        ∙ rw (same, v.nexts r low) refl))

-- Every block is as it was.
taken_all :
    (P : ℕ → RingBlock → Type 0) (rb : RingBuf)
    → P rb.read_end (record (rb.blocks rb.read_end) { has_been_read = 0 })
    → ((j : ℕ) → j < 128 → j ≢ rb.read_end → P j (rb.blocks j))
    → (j : ℕ) → j < 128
    → P j (taken_blocks rb j)
taken_all P rb new old =
    let r = rb.read_end in
    let b : RingBlock = record (rb.blocks r) { has_been_read = 1 } in
    put_block_all P (put_block rb.blocks r b) r _ 128 (rw (put_block_same rb.blocks r b) new)
      (λ j h ne. rw (put_block_other rb.blocks r j b ne) (old j h ne))

taken-Holds :
    (rb : RingBuf) (p : RingPacket) (xs : List RingPacket) → Holds rb (p ∷ xs) → Holds (taken rb) xs
taken-Holds rb p xs v =
    let r = rb.read_end in
    let low = v.in_ring in
    let next = v.nexts r low in
    let behind : (k : ℕ) → ((rb.blocks r).next_index + k) % 128 ≡ (r + suc k) % 128 =
      λ k. omega (arith, next) in
    let same_packet = taken_all (λ j b. b.packet ≡ (rb.blocks j).packet) rb refl (λ j h ne. refl) in
    record {
      nexts = taken_all (λ j b. b.next_index ≡ (j + 1) % 128) rb next (λ j h ne. v.nexts j h);
      unread = taken_all (λ j b. b.has_been_read ≡ 0) rb refl (λ j h ne. v.unread j h);
      unwritten =
          taken_all (λ j b. b.has_been_written ≡ 0) rb (v.unwritten r low)
            (λ j h ne. v.unwritten j h);
      reads = refl;
      writes = v.writes;
      in_ring = omega (arith, next);
      tail = v.tail ∙ sym (behind (length xs));
      room = omega (arith, v.room);
      packets = λ k lt.
          v.packets (suc k) (omega arith)
          ∙ sym (rw (behind k) (ap some (same_packet ((r + suc k) % 128) (omega arith))));
    }

module _ (weak : ℕ → Bool) (rb : RingBuf) where
  front :
      (p : RingPacket) (xs : List RingPacket)
      → Holds rb (p ∷ xs)
      → some (rb.blocks rb.read_end).packet ≡ some p
  front p xs v =
      let here : (rb.read_end + 0) % 128 ≡ rb.read_end = omega (arith, v.in_ring) in
      ap (λ i. some (rb.blocks i).packet) (sym here) ∙ sym (v.packets 0 (omega arith))

  pop_tries :
      (p : RingPacket) (xs : List RingPacket) (v : Holds rb (p ∷ xs)) (fuel n : ℕ)
      → n < fuel
      → weak n ≡ true
      → ringbuf_pop weak fuel rb ≡ some (none_err, some p, taken rb)
  unfolding ringbuf_pop
  pop_tries p xs v zero n lt e = absurd (omega arith)
  pop_tries p xs v (suc fuel) n lt e =
      let ne : rb.read_end ≢ rb.write_start =
        λ t. absurd (omega (arith, v.tail, v.writes, v.in_ring, v.room, t)) in
      let waiting : (rb.read_end == rb.write_start) ≡ false = ground (arith, ne) in
      rw waiting (elim (Bool-cases (weak fuel)) [
        | inl hit ↦ rw hit (
            ap popped (pop_impl_lem rb (p ∷ xs) v)
            ∙ ap (λ q. some (none_err, q, taken rb)) (front p xs v))
        | inr miss ↦ rw miss (pop_tries p xs v fuel n (another_try weak fuel n lt e miss) e)
      ])

  -- Between calls of one thread, a pop from a buffer that stands for a queue with a first packet
  -- returns `ERR_None` and that packet, and the buffer then stands for the rest of the queue,
  -- where some try below the fuel is one at which the weak exchange succeeds.
  pub ringbuf_pop_lem :
      (p : RingPacket) (xs : List RingPacket)
      → Holds rb (p ∷ xs)
      → (fuel n : ℕ) → n < fuel
      → weak n ≡ true
      → (rb' : RingBuf) × (ringbuf_pop weak fuel rb ≡ some (none_err, some p, rb')) × Holds rb' xs
  ringbuf_pop_lem p xs v fuel n lt e =
      (taken rb, pop_tries p xs v fuel n lt e, taken-Holds rb p xs v)

  -- A pop from a buffer that stands for the empty queue returns `ERR_Again` and leaves the
  -- buffer as it was.
  pub ringbuf_pop-empty :
      (fuel : ℕ) → Holds rb [] → ringbuf_pop weak (suc fuel) rb ≡ some (again, none, rb)
  unfolding ringbuf_pop
  ringbuf_pop-empty fuel v =
      let e : rb.read_end ≡ rb.write_start = omega (arith, v.tail, v.writes, v.in_ring) in
      rw ((==_iff _ _).1 e) refl
