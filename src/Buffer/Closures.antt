-- ===== src/Buffer/Closures.antt =====
-- usbd-storage/src/buffer.rs: the two operations that hand a slice of the storage to a closure.
use usbd_storage.Prelude.{ℕ, ◌+◌, min, List, length, leb, ltb}
use usbd_storage.Prelude.Outcome.{Outcome, assert, sub, slice, splice}
use usbd_storage.Prelude.Proc.{Proc, ◌>>=◌, ◌>>◌, pure, lift, get, put, fail_if}
use usbd_storage.Buffer.Defs.{Buffer, available_read, available_write, make_room}

-- The closure maps the slice and what it captures to its result, the slice as it leaves it, and what
-- it captured.
abbrev pub Closure : Type 0 → Type 0 → Type 0
Closure S E = List ℕ → S → Outcome E ℕ × List ℕ × S

module _ {S E : Type 0} where
  unfoldable pub write_all : ℕ → E → Closure S E → Proc (Buffer × S) E ℕ
  write_all max_count overflow_err f = do
    (b₀, s) ← get
    b ← lift (make_room max_count b₀)
    put (b, s)
    room ← lift (available_write b)
    fail_if (ltb room max_count) overflow_err
    bytes ← lift (slice b.inner b.wpos (b.wpos + max_count))
    let (result, bytes', s') = f bytes s
    let inner = splice b.inner b.wpos bytes'
    put (record b { inner = inner }, s')
    count ← lift result
    room ← lift (sub (length inner) b.wpos)
    let advance_by = min count room
    let wpos = b.wpos + advance_by
    put (record b { inner = inner; wpos = wpos }, s')
    lift (assert (leb wpos (length inner)))
    pure advance_by

  unfoldable pub read : Closure S E → Proc (Buffer × S) E ℕ
  read f = do
    (b, s) ← get
    available ← lift (available_read b)
    let boundary = b.rpos + available
    bytes ← lift (slice b.inner b.rpos boundary)
    let (result, bytes', s') = f bytes s
    let inner = splice b.inner b.rpos bytes'
    put (record b { inner = inner }, s')
    count ← lift result
    available ← lift (available_read b)
    let advance_by = min count available
    let rpos = b.rpos + advance_by
    put (record b { inner = inner; rpos = rpos }, s')
    lift (assert (leb rpos b.wpos))
    pure advance_by
