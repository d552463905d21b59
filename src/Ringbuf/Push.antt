-- ===== src/Ringbuf/Push.antt =====
-- `ringbuf_push` of src/ringbuf.c: the back of a queue.
use eq_data_patcher.Base.{
  ℕ, zero, suc, ◌+◌, ◌%◌, ◌<◌, ◌≡◌, ◌≢◌, ◌∙◌, ap, refl, arith, Bool, true, false, inl, inr, List,
  [], ◌∷◌, ◌++◌, some, length, get_elem?, ◌==◌, Bool-cases, ==_iff, length-append,
}
use eq_data_patcher.Err.{none_err, out_of_space}
use eq_data_patcher.Ringbuf.{
  RingPacket, RingBlock, RingBuf, put_block, advance_written, push_impl, with_code, ringbuf_push,
}
use eq_data_patcher.Ringbuf.Holds.{
  Holds, put_block_same, put_block_other, put_block_all, another_try,
}

pub eqb_refl : (i : ℕ) → (i == i) ≡ true
eqb_refl i = (==_iff i i).1 refl

get_elem?-append_left :
    (xs ys : List RingPacket) (k : ℕ) → k < length xs → get_elem? (xs ++ ys) k ≡ get_elem? xs k
get_elem?-append_left [] ys k h = absurd (omega arith)
get_elem?-append_left (x ∷ xs) ys zero h = refl
get_elem?-append_left (x ∷ xs) ys (suc k) h = get_elem?-append_left xs ys k (omega arith)

get_elem?-snoc :
    (xs : List RingPacket) (p : RingPacket) → get_elem? (xs ++ p ∷ []) (length xs) ≡ some p
get_elem?-snoc [] p = refl
get_elem?-snoc (x ∷ xs) p = get_elem?-snoc xs p

-- The state after a push: block `write_end` holds the packet.
abbrev pushed_blocks : RingBuf → RingPacket → ℕ → RingBlock
pushed_blocks rb p =
    let w = rb.write_end in
    let filled =
      put_block rb.blocks w (record (rb.blocks w) { packet = p; has_been_written = 1 }) in
    put_block filled w (record (filled w) { has_been_written = 0 })

abbrev pushed : RingBuf → RingPacket → RingBuf
pushed rb p =
    let next = (rb.blocks rb.write_end).next_index in
    record rb { blocks = pushed_blocks rb p; write_start = next; write_end = next }

advance_written_stop :
    (fuel : ℕ) (rb : RingBuf)
    → (rb.blocks rb.write_start).has_been_written ≡ 0
    → advance_written (suc fuel) rb ≡ some rb
unfolding advance_written
advance_written_stop fuel rb h = rw h

-- The state after one round of the loop.
abbrev written_round : RingBuf → RingBuf
written_round rb =
    let b = rb.blocks rb.write_start in
    record rb {
      blocks = put_block rb.blocks rb.write_start (record b { has_been_written = 0 });
      write_start = b.next_index;
    }

advance_written_once :
    (fuel : ℕ) (rb : RingBuf)
    → (rb.blocks rb.write_start).has_been_written ≡ 1
    → advance_written (suc fuel) rb ≡ advance_written fuel (written_round rb)
unfolding advance_written
advance_written_once fuel rb h = rw (h, eqb_refl rb.write_start)

-- One block is written: the loop stops behind it.
advance_written_one :
    (fuel : ℕ) (rb : RingBuf) (next : ℕ)
    → (rb.blocks rb.write_start).has_been_written ≡ 1
    → (rb.blocks rb.write_start).next_index ≡ next
    → next ≢ rb.write_start
    → (rb.blocks next).has_been_written ≡ 0
    → advance_written (suc (suc fuel)) rb ≡ some (written_round rb)
advance_written_one fuel rb next h e ne z =
    advance_written_once (suc fuel) rb h
    ∙ advance_written_stop fuel (written_round rb) (
        rw e
          (ap (λ b. b.has_been_written) (put_block_other rb.blocks rb.write_start next _ ne) ∙ z))

pub next_ne : (i : ℕ) → i < 128 → (i + 1) % 128 ≢ i
next_ne i h e = absurd (omega arith)

push_impl_lem :
    (rb : RingBuf) (xs : List RingPacket) (p : RingPacket)
    → Holds rb xs
    → push_impl (record rb { write_end = (rb.blocks rb.write_end).next_index }) rb.write_end p
      ≡ some (pushed rb p)
unfolding push_impl
push_impl_lem rb xs p v =
    let w = rb.write_end in
    let low : w < 128 = omega (arith, v.tail) in
    let b : RingBlock = record (rb.blocks w) { packet = p; has_been_written = 1 } in
    let same = put_block_same rb.blocks w b in
    let ne = next_ne w low in
    rw v.writes (
      advance_written_one 127
        (record rb {
          blocks = put_block rb.blocks w b;
          write_start = w;
          write_end = (rb.blocks w).next_index;
        })
        ((w + 1) % 128) (ap (λ b. b.has_been_written) same)
        (ap (λ b. b.next_index) same ∙ v.nexts w low) ne
        (ap (λ b. b.has_been_written) (put_block_other rb.blocks w ((w + 1) % 128) b ne)
          ∙ v.unwritten ((w + 1) % 128) (omega arith))
      ∙ rw (same, v.nexts w low) refl)

-- The block behind the last packet holds the new one; the others are as they were.
pushed_all :
    (P : ℕ → RingBlock → Type 0) (rb : RingBuf) (p : RingPacket)
    → P rb.write_end (record (rb.blocks rb.write_end) { packet = p; has_been_written = 0 })
    → ((j : ℕ) → j < 128 → j ≢ rb.write_end → P j (rb.blocks j))
    → (j : ℕ) → j < 128
    → P j (pushed_blocks rb p j)
pushed_all P rb p new old =
    let w = rb.write_end in
    let b : RingBlock = record (rb.blocks w) { packet = p; has_been_written = 1 } in
    put_block_all P (put_block rb.blocks w b) w _ 128 (rw (put_block_same rb.blocks w b) new)
      (λ j h ne. rw (put_block_other rb.blocks w j b ne) (old j h ne))

-- The packet at place `k`, where block `i` is at that place.
abbrev PacketAt : RingBuf → List RingPacket → ℕ → RingBlock → Type 0
PacketAt rb xs i b =
    (k : ℕ) → k < length xs → (rb.read_end + k) % 128 ≡ i → get_elem? xs k ≡ some b.packet

pushed-PacketAt :
    (rb : RingBuf) (xs : List RingPacket) (p : RingPacket)
    → Holds rb xs
    → length xs < 127
    → (i : ℕ) → i < 128
    → PacketAt rb (xs ++ p ∷ []) i (pushed_blocks rb p i)
pushed-PacketAt rb xs p v room =
    let len : length (xs ++ p ∷ []) ≡ suc (length xs) = omega (arith, length-append xs (p ∷ [])) in
    pushed_all (PacketAt rb (xs ++ p ∷ [])) rb p
      (λ k lt e.
        let at_end : k ≡ length xs = omega (arith, v.tail, v.in_ring) in
        rw at_end (get_elem?-snoc xs p))
      (λ j h ne k lt e. elim (Bool-cases (k == length xs)) [
        | inl t ↦
            let at_end : k ≡ length xs = (==_iff k (length xs)).0 t in
            absurd (ne (omega (arith, v.tail)))
        | inr f ↦
            let before : k < length xs = ground (arith, f, lt, len) in
            get_elem?-append_left xs (p ∷ []) k before
            ∙ v.packets k before
            ∙ ap (λ i. some (rb.blocks i).packet) e
      ])

pushed-Holds :
    (rb : RingBuf) (xs : List RingPacket) (p : RingPacket)
    → Holds rb xs
    → length xs < 127
    → Holds (pushed rb p) (xs ++ p ∷ [])
pushed-Holds rb xs p v room =
    let w = rb.write_end in
    let low : w < 128 = omega (arith, v.tail) in
    let len : length (xs ++ p ∷ []) ≡ suc (length xs) = omega (arith, length-append xs (p ∷ [])) in
    record {
      nexts =
          pushed_all (λ j b. b.next_index ≡ (j + 1) % 128) rb p (v.nexts w low)
            (λ j h ne. v.nexts j h);
      unread =
          pushed_all (λ j b. b.has_been_read ≡ 0) rb p (v.unread w low) (λ j h ne. v.unread j h);
      unwritten = pushed_all (λ j b. b.has_been_written ≡ 0) rb p refl (λ j h ne. v.unwritten j h);
      reads = v.reads;
      writes = refl;
      in_ring = v.in_ring;
      tail = v.nexts w low ∙ omega (arith, v.tail);
      room = omega arith;
      packets =
          λ k lt. pushed-PacketAt rb xs p v room ((rb.read_end + k) % 128) (omega arith) k lt refl;
    }

module _ (weak : ℕ → Bool) (rb : RingBuf) (xs : List RingPacket) (p : RingPacket)
    (v : Holds rb xs) where
  not_full : length xs < 127 → ((rb.blocks rb.write_end).next_index == rb.read_start) ≡ false
  not_full room =
      let n = v.nexts rb.write_end (omega (arith, v.tail)) in
      let ne : (rb.blocks rb.write_end).next_index ≢ rb.read_start =
        λ e. absurd (omega (arith, v.tail, v.reads, v.in_ring, n, e)) in
      ground (arith, ne)

  push_tries :
      (fuel n : ℕ)
      → n < fuel
      → weak n ≡ true
      → length xs < 127
      → ringbuf_push weak fuel rb p ≡ some (none_err, pushed rb p)
  unfolding ringbuf_push
  push_tries zero n lt e room = absurd (omega arith)
  push_tries (suc fuel) n lt e room = rw (not_full room) (elim (Bool-cases (weak fuel)) [
    | inl hit ↦ rw hit (ap with_code (push_impl_lem rb xs p v))
    | inr miss ↦ rw miss (push_tries fuel n (another_try weak fuel n lt e miss) e room)
  ])

  -- Between calls of one thread, a push into a buffer that stands for a queue of fewer than 127
  -- packets returns `ERR_None`, and the buffer then stands for the queue with the packet behind
  -- the others, where some try below the fuel is one at which the weak exchange succeeds.
  pub ringbuf_push_lem :
      (fuel n : ℕ)
      → n < fuel
      → weak n ≡ true
      → length xs < 127
      → (rb' : RingBuf) × (ringbuf_push weak fuel rb p ≡ some (none_err, rb'))
        × Holds rb' (xs ++ p ∷ [])
  ringbuf_push_lem fuel n lt e room =
      (pushed rb p, push_tries fuel n lt e room, pushed-Holds rb xs p v room)

  -- A push into a buffer that stands for a queue of 127 packets returns `ERR_OutOfSpace` and
  -- leaves the buffer as it was.
  pub ringbuf_push-full :
      (fuel : ℕ) → length xs ≡ 127 → ringbuf_push weak (suc fuel) rb p ≡ some (out_of_space, rb)
  unfolding ringbuf_push
  ringbuf_push-full fuel full =
      let n = v.nexts rb.write_end (omega (arith, v.tail)) in
      let e : (rb.blocks rb.write_end).next_index ≡ rb.read_start =
        omega (arith, v.tail, v.reads, v.in_ring, n) in
      rw ((==_iff _ _).1 e) refl
