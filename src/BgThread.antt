-- ===== src/BgThread.antt =====
-- src/bg_thread.c, and what it uses of the semaphores: the thread that waits for packets, and its
-- start and end.
pub mod Rounds
pub mod Stop
use eq_data_patcher.Base.{
  ℕ, zero, suc, ◌+◌, Bool, true, false, not, ◌||◌, ◌&&◌, Option, none, some, List, [], ◌∷◌, ◌==◌,
  if◌then◌else◌, length,
}
use eq_data_patcher.Array
use eq_data_patcher.Array.{Array}
use eq_data_patcher.Db.{
  Sqlite, sqlite_busy, sqlite_locked, sqlite_done, sqlite_row, db_prep, db_init,
}
use eq_data_patcher.Semaphore.{semaphore_code, init_code}
use eq_data_patcher.Err.{Err, none_err, semaphore, could_not_init, out_of_memory, err_number}
use eq_data_patcher.HashTbl
use eq_data_patcher.HashTbl.{HashTbl}
use eq_data_patcher.Parse.{ManifestEntry, Freed, deinit_each_patch_entry, entry_size}
use eq_data_patcher.Ringbuf.{
  RingPacket, RingBuf, ringbuf_create, ringbuf_push, ringbuf_pop, ring_packet_init,
  ring_packet_init_value, ring_packet_init_op,
}
use eq_data_patcher.Sstr.{File, SimpleBuffer, sstr_create}

-- `RingBufOp`
abbrev pub op_terminate : ℕ
op_terminate = 1

abbrev pub op_could_not_open_db : ℕ
op_could_not_open_db = 2

abbrev pub op_need_eq_path : ℕ
op_need_eq_path = 3

-- `BG` without the handles of the system; `db` says whether the pointer is set.
pub record Bg : Type 0 where
  pub db : Bool
  pub patches : Array ManifestEntry
  pub patches_by_name : HashTbl ℕ
  pub eq_path : Option SimpleBuffer
  pub input : Option RingBuf
  pub output : Option RingBuf

-- What the thread finds in the database: a path, no path, or an error with its number and what was
-- found before.
pub data Found : Type 0 where
  path : Option SimpleBuffer → Found
  error : ℕ → Option SimpleBuffer → Found

-- A row is asked for again.
abbrev pub path_is_busy : ℕ → Bool
path_is_busy code = code == sqlite_busy || code == sqlite_locked

-- `grant` says whether an allocation of that many bytes succeeds, and `junk` is what fresh memory
-- holds; `weak` and `tries` are those of the ring buffers.
module _ (grant : ℕ → Bool) (junk : ℕ) (weak : ℕ → Bool) (tries : ℕ) where
  abbrev pub pushed : Option (Err × RingBuf) → Option RingBuf
  pushed none = none
  pushed (some (_, rb)) = some rb

  -- The loop over the rows. The list is what `sqlite3_step` returns and the text of the column,
  -- call after call.
  unfoldable pub path_loop : List (ℕ × Option (List ℕ)) → Option SimpleBuffer → Option Found
  unfolding sstr_create
  path_loop [] found = none
  path_loop ((code, text) ∷ calls) found =
      if path_is_busy code
      then path_loop calls found
      else if code == sqlite_done
      then some (path found)
      else if not (code == sqlite_row)
      then some (error code found)
      else elim text [
        | none ↦ path_loop calls found
        | some str ↦
            if length str == 0
            then path_loop calls found
            else elim (sstr_create grant junk str (length str)) [
              | none ↦ some (error code none)
              | some s ↦ path_loop calls (some s)
            ]
      ]

  -- The output buffer and the path after the rows were read.
  abbrev pub tell : RingBuf → Option Found → Option (Option SimpleBuffer × RingBuf)
  tell output none = none
  tell output (some (error code found)) =
      elim (pushed
        (ringbuf_push weak tries output (ring_packet_init_value op_could_not_open_db code))) [
          | none ↦ none
          | some rb ↦ some (found, rb)
        ]
  tell output (some (path none)) =
      elim (pushed (ringbuf_push weak tries output (ring_packet_init_op op_need_eq_path))) [
        | none ↦ none
        | some rb ↦ some (none, rb)
      ]
  tell output (some (path (some s))) = some (some s, output)

  abbrev pub after_open :
      RingBuf
      → List (ℕ × Option (Unit {0}))
      → List (ℕ × Option (List ℕ))
      → Option (Err × List (List ℕ))
      → Option (Option SimpleBuffer × RingBuf)
  after_open output prepares calls none = none
  after_open output prepares calls (some (none_err, texts)) = elim (db_prep prepares) [
    | none ↦ none
    | some none ↦ tell output (some (error 0 none))
    | some (some _) ↦ tell output (path_loop calls none)
  ]
  after_open output prepares calls (some (rc, texts)) =
      tell output (some (error (err_number rc) none))

  -- The path and the output buffer.
  unfoldable pub bg_thread_init_db :
      Sqlite
      → Option File
      → List (ℕ × Option (Unit {0}))
      → List (ℕ × Option (List ℕ))
      → RingBuf
      → Option (Option SimpleBuffer × RingBuf)
  unfolding path_loop db_init db_prep ringbuf_push ring_packet_init_value ring_packet_init_op
  bg_thread_init_db lib schema prepares calls output =
      after_open output prepares calls (db_init grant junk lib schema)

  abbrev pub handle :
      (RingBuf → Option (Bool × RingBuf))
      → Option (Err × Option RingPacket × RingBuf)
      → Option (Bool × RingBuf)
  handle rest none = none
  handle rest (some (none_err, some p, rb)) =
      if p.opcode == op_terminate then some (true, rb) else rest rb
  handle rest (some (none_err, none, rb)) = rest rb
  handle rest (some (rc, p, rb)) = some (false, rb)

  -- The inner loop, of `fuel` rounds at most: whether a packet said to end.
  unfoldable pub drain : ℕ → RingBuf → Option (Bool × RingBuf)
  unfolding ringbuf_pop
  drain zero rb = none
  drain (suc fuel) rb = handle (drain fuel) (ringbuf_pop weak tries rb)

  abbrev pub after_drain : (RingBuf → Option RingBuf) → Option (Bool × RingBuf) → Option RingBuf
  after_drain rest none = none
  after_drain rest (some (true, rb)) = some rb
  after_drain rest (some (false, rb)) = rest rb

  -- The outer loop. `wait k` is what the wait with that number gives: `none` for an error, and
  -- else the input buffer as it is then. The result is the buffer when the thread returns, `none`
  -- where it does not return within `rounds` of them.
  unfoldable pub thread_loop : ℕ → ℕ → (ℕ → RingBuf → Option RingBuf) → RingBuf → Option RingBuf
  unfolding drain
  thread_loop zero k wait rb = none
  thread_loop (suc rounds) k wait rb = elim (wait k rb) [
    | none ↦ some rb
    | some rb' ↦ after_drain (thread_loop rounds (k + 1) wait) (drain 129 rb')
  ]

  -- `bg_thread_start`: what the semaphore's and the thread's creation give, 0 or an error.
  unfoldable pub bg_thread_start : ℕ → ℕ → RingBuf → Bg → Err × Bg
  unfolding ringbuf_create Array.init_size HashTbl.init_size
  bg_thread_start sem thread memory bg =
      let bg' : Bg = record bg {
        patches = Array.init_size entry_size;
        patches_by_name = HashTbl.init_size 4;
        input = ringbuf_create grant memory;
        output = ringbuf_create grant memory;
      } in
      elim bg'.input [
        | none ↦ (out_of_memory, bg')
        | some _ ↦ elim bg'.output [
          | none ↦ (out_of_memory, bg')
          | some _ ↦ if not (sem == 0) then (init_code sem, bg') else (init_code thread, bg')
        ]
      ]

  abbrev pub sent : ℕ → Option (Err × RingBuf) → Option (Err × RingBuf)
  sent trigger none = none
  sent trigger (some (none_err, rb)) = some (semaphore_code trigger, rb)
  sent trigger (some (rc, rb)) = some (rc, rb)

  -- `trigger` is what the system gives for the semaphore.
  unfoldable pub bg_thread_send : ℕ → RingBuf → RingPacket → Option (Err × RingBuf)
  unfolding ringbuf_push
  bg_thread_send trigger input p = sent trigger (ringbuf_push weak tries input p)

  unfoldable pub bg_thread_recv : RingBuf → Option (Err × Option RingPacket × RingBuf)
  unfolding ringbuf_pop
  bg_thread_recv output = ringbuf_pop weak tries output

  abbrev pub again_unless_sent :
      (RingBuf → Option RingBuf) → Option (Err × RingBuf) → Option RingBuf
  again_unless_sent rest none = none
  again_unless_sent rest (some (none_err, rb)) = some rb
  again_unless_sent rest (some (rc, rb)) = rest rb

  -- The loop of `bg_thread_stop`; between two tries the other thread may pop, as `meanwhile` says.
  unfoldable pub stop_loop : ℕ → (RingBuf → RingBuf) → ℕ → RingBuf → Option RingBuf
  unfolding bg_thread_send ring_packet_init
  stop_loop zero meanwhile trigger input = none
  stop_loop (suc rounds) meanwhile trigger input =
      again_unless_sent (λ rb. stop_loop rounds meanwhile trigger (meanwhile rb))
        (bg_thread_send trigger input (ring_packet_init op_terminate 0 0))

  -- What `bg_thread_stop` does once the thread has ended: what is freed, and the state, with the
  -- pointers to the freed ring buffers as they were.
  unfoldable pub bg_thread_stop : Bg → Freed × Bg
  unfolding Array.deinit HashTbl.deinit deinit_each_patch_entry
  bg_thread_stop bg =
      let (freed, patches) = Array.deinit deinit_each_patch_entry bg.patches ([], []) in
      let (_, _, tbl) = HashTbl.deinit {0} (λ s v. s) bg.patches_by_name tt in
      (freed, record bg { db = false; eq_path = none; patches = patches; patches_by_name = tbl })
