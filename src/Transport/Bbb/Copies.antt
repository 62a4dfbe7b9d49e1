-- ===== src/Transport/Bbb/Copies.antt =====
-- usbd-storage/src/transport/bbb.rs: the closures that copy between the IO buffer and another
-- slice.
use usbd_storage.Prelude.{ℕ, ◌==◌, min, List, length, take}
use usbd_storage.Prelude.Outcome.{Outcome, done, ◌>>=◌, ◌>>◌, assert, slice, splice}
use usbd_storage.Buffer.{Closure}
use usbd_storage.Transport.Bbb.Types.{cbw_len}

-- `try_parse_cbw`: the front of the buffer goes to `raw_cbw`, which the closure captures.
unfoldable pub cbw_closure : Closure (List ℕ) ⊥
cbw_closure bytes raw_cbw = (copied, bytes, take cbw_len bytes)
  where
    copied : Outcome ⊥ ℕ
    copied = do src ← slice bytes 0 cbw_len; assert (length raw_cbw == length src); done cbw_len

-- `read_data`: as much of the buffer as fits goes to the front of `dst`, which the closure captures.
unfoldable pub read_data_closure : Closure (List ℕ) ⊥
read_data_closure bytes dst = (copied, bytes, splice dst 0 (take size bytes))
  where
    size : ℕ
    size = min (length dst) (length bytes)

    copied : Outcome ⊥ ℕ
    copied = do src ← slice bytes 0 size; old ← slice dst 0 size; done size

-- `try_write_data_all`: `src` goes to the front of the slice of the buffer.
unfoldable pub write_all_closure : {W E : Type 0} → List ℕ → Closure W E
write_all_closure {E} src bytes w = (copied, splice bytes 0 src, w)
  where
    copied : Outcome E ℕ
    copied = do old ← slice bytes 0 (length src); done (length src)
