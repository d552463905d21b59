-- ===== src/Ringbuf.antt =====
-- src/ringbuf.h, src/enum_ringbuf.h and src/ringbuf.c: a queue of packets between threads, run here
-- by one thread at a time: each call ends before the next one starts.
-- The atomic functions of src/edp_atomic.h are then reads and writes. The weak exchange may fail
-- with no cause: `weak` says which tries succeed. A block is found by its index below 128.
pub mod Holds
pub mod Push
pub mod Pop
use eq_data_patcher.Base.{
  ℕ, zero, suc, ◌+◌, ◌-◌, Bool, Option, none, some, ◌==◌, if◌then◌else◌, u32,
}
use eq_data_patcher.Err.{Err, none_err, out_of_space, again}

abbrev pub max_packets : ℕ
max_packets = 128

-- The union of `data` and `value`.
pub data Payload : Type 0 where
  data_at value : ℕ → Payload

pub record RingPacket : Type 0 where
  pub opcode : ℕ
  pub packet_length : ℕ
  pub payload : Payload

pub record RingBlock : Type 0 where
  pub next_index : ℕ
  pub has_been_read : ℕ
  pub has_been_written : ℕ
  pub packet : RingPacket

pub record RingBuf : Type 0 where
  pub blocks : ℕ → RingBlock
  pub read_start : ℕ
  pub read_end : ℕ
  pub write_start : ℕ
  pub write_end : ℕ

unfoldable pub put_block : (ℕ → RingBlock) → ℕ → RingBlock → ℕ → RingBlock
put_block blocks i b j = if j == i then b else blocks j

-- The two writes that `ringbuf_init` does to each block, and its link.
abbrev pub reset : (ℕ → RingBlock) → ℕ → ℕ → ℕ → RingBlock
reset blocks i next =
    put_block blocks i
      (record (blocks i) { next_index = next; has_been_read = 0; has_been_written = 0 })

-- `for (i = 1; i < n; i++)`, with `left` rounds to go.
unfoldable pub reset_loop : ℕ → ℕ → (ℕ → RingBlock) → ℕ → RingBlock
reset_loop zero i blocks = blocks
reset_loop (suc left) i blocks = reset_loop left (i + 1) (reset blocks i (i + 1))

unfoldable pub ringbuf_init : RingBuf → RingBuf
unfolding reset_loop
ringbuf_init rb =
    let n = max_packets - 1 in
    record {
      blocks = reset (reset_loop (n - 1) 1 (reset rb.blocks 0 1)) n 0;
      read_start = 0;
      read_end = 0;
      write_start = 0;
      write_end = 0;
    }

-- `fresh` is what the memory holds, of which there are 128 blocks of 24 bytes and 8 bytes more.
unfoldable pub ringbuf_create : (ℕ → Bool) → RingBuf → Option RingBuf
ringbuf_create grant fresh = if grant 3080 then some (ringbuf_init fresh) else none

-- `aint16_cmp_xchg_strong`: what the cell is afterwards.
abbrev pub cmp_xchg : ℕ → ℕ → ℕ → ℕ
cmp_xchg a expected desired = if a == expected then desired else a

-- The loop of `ringbuf_push_impl`. `none` where it does not end within `fuel` rounds.
unfoldable pub advance_written : ℕ → RingBuf → Option RingBuf
advance_written zero rb = none
advance_written (suc fuel) rb =
    let index = rb.write_start in
    let block = rb.blocks index in
    let cleared = put_block rb.blocks index (record block { has_been_written = 0 }) in
    let rest = advance_written fuel (record rb {
      blocks = cleared;
      write_start = cmp_xchg rb.write_start index block.next_index;
    }) in
    if block.has_been_written == 1 then rest else some rb

-- Each round but the last clears a flag of the 128.
unfoldable pub push_impl : RingBuf → ℕ → RingPacket → Option RingBuf
push_impl rb index p = advance_written (max_packets + 1) (record rb {
  blocks =
      put_block rb.blocks index (record (rb.blocks index) { packet = p; has_been_written = 1 });
})

abbrev pub with_code : {A : Type 0} → Option A → Option (Err × A)
with_code none = none
with_code (some a) = some (none_err, a)

-- `none` where no try within `fuel` of them succeeds.
unfoldable pub ringbuf_push : (ℕ → Bool) → ℕ → RingBuf → RingPacket → Option (Err × RingBuf)
ringbuf_push weak zero rb p = none
ringbuf_push weak (suc fuel) rb p =
    let index = rb.write_end in
    let next = (rb.blocks index).next_index in
    let rest = ringbuf_push weak fuel rb p in
    if next == rb.read_start
    then some (out_of_space, rb)
    else if weak fuel
    then with_code (push_impl (record rb { write_end = next }) index p)
    else rest

unfoldable pub advance_read : ℕ → RingBuf → Option RingBuf
advance_read zero rb = none
advance_read (suc fuel) rb =
    let index = rb.read_start in
    let block = rb.blocks index in
    let cleared = put_block rb.blocks index (record block { has_been_read = 0 }) in
    let rest = advance_read fuel (record rb {
      blocks = cleared;
      read_start = cmp_xchg rb.read_start index block.next_index;
    }) in
    if block.has_been_read == 1 then rest else some rb

-- The packet that is copied out, and the buffer.
unfoldable pub pop_impl : RingBuf → ℕ → Option (RingPacket × RingBuf)
pop_impl rb index =
    let block = rb.blocks index in
    elim (advance_read (max_packets + 1)
      (record rb { blocks = put_block rb.blocks index (record block { has_been_read = 1 }) })) [
        | none ↦ none
        | some rb' ↦ some (block.packet, rb')
      ]

abbrev pub popped : Option (RingPacket × RingBuf) → Option (Err × Option RingPacket × RingBuf)
popped none = none
popped (some (p, rb)) = some (none_err, some p, rb)

unfoldable pub ringbuf_pop : (ℕ → Bool) → ℕ → RingBuf → Option (Err × Option RingPacket × RingBuf)
ringbuf_pop weak zero rb = none
ringbuf_pop weak (suc fuel) rb =
    let index = rb.read_end in
    let rest = ringbuf_pop weak fuel rb in
    if index == rb.write_start
    then some (again, none, rb)
    else if weak fuel
    then popped (pop_impl (record rb { read_end = (rb.blocks index).next_index }) index)
    else rest

unfoldable pub ring_packet_init : ℕ → ℕ → ℕ → RingPacket
ring_packet_init opcode len ptr = record {
  opcode = u32 opcode;
  packet_length = len;
  payload = data_at ptr;
}

unfoldable pub ring_packet_init_value : ℕ → ℕ → RingPacket
ring_packet_init_value opcode v = record {
  opcode = u32 opcode;
  packet_length = 0;
  payload = value v;
}

unfoldable pub ring_packet_init_op : ℕ → RingPacket
ring_packet_init_op opcode = record { opcode = u32 opcode; packet_length = 0; payload = value 0 }
