-- ===== src/Buffer/Defs.antt =====
-- usbd-storage/src/buffer.rs: the buffer and its operations that take no closure.
-- `inner` is the storage, `rpos` and `wpos` bound the bytes that wait to be read.
use usbd_storage.Prelude.{ℕ, ◌+◌, min, List, length, replicate, leb, ltb, ◌==◌, if◌then◌else◌}
use usbd_storage.Prelude.Outcome.{Outcome, done, ◌>>=◌, ◌>>◌, assert, sub, slice, splice}

pub record Buffer : Type 0 where
  pub inner : List ℕ
  pub rpos : ℕ
  pub wpos : ℕ

unfoldable pub new : List ℕ → Buffer
new inner = record { inner = inner; rpos = 0; wpos = 0 }

unfoldable pub clear : Buffer → Buffer
clear b = record b { rpos = 0; wpos = 0 }

module _ {E : Type 0} where
  unfoldable pub available_read : Buffer → Outcome E ℕ
  available_read b = sub b.wpos b.rpos

  unfoldable pub available_write : Buffer → Outcome E ℕ
  available_write b = sub (length b.inner) b.wpos

  -- `xs.copy_within(start..end, 0)`
  unfoldable pub copy_to_front : List ℕ → ℕ → ℕ → Outcome E (List ℕ)
  copy_to_front xs start end = do bytes ← slice xs start end; done (splice xs 0 bytes)

  -- `xs[start..end].copy_from_slice(ys)`
  unfoldable pub copy_from_slice : List ℕ → ℕ → ℕ → List ℕ → Outcome E (List ℕ)
  copy_from_slice xs start end ys = do
    old ← slice xs start end
    assert (length old == length ys)
    done (splice xs start ys)

  unfoldable pub shift : Buffer → Outcome E Buffer
  shift b = if b.rpos == b.wpos then done (clear b) else do
    inner ← copy_to_front b.inner b.rpos b.wpos
    wpos ← sub b.wpos b.rpos
    done (record { inner = inner; rpos = 0; wpos = wpos })

  -- The shift that `write`, `write_all` and `fill_up_to` begin with.
  unfoldable pub make_room : ℕ → Buffer → Outcome E Buffer
  make_room wanted b = do room ← available_write b; if ltb room wanted then shift b else done b

  unfoldable pub write : List ℕ → Buffer → Outcome E (ℕ × Buffer)
  write bytes b = do
    b' ← make_room (length bytes) b
    room ← available_write b'
    let count = min room (length bytes)
    src ← slice bytes 0 count
    inner ← copy_from_slice b'.inner b'.wpos (b'.wpos + count) src
    let wpos = b'.wpos + count
    assert (leb wpos (length inner))
    done (count, record b' { inner = inner; wpos = wpos })

  unfoldable pub fill_up_to : ℕ → ℕ → Buffer → Outcome E Buffer
  fill_up_to value up_to b = do
    b' ← make_room up_to b
    room ← available_write b'
    let count = min room up_to
    inner ← copy_from_slice b'.inner b'.wpos (b'.wpos + count) (replicate count value)
    let wpos = b'.wpos + count
    assert (leb wpos (length inner))
    done (record b' { inner = inner; wpos = wpos })
