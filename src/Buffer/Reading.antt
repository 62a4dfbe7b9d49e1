-- ===== src/Buffer/Reading.antt =====
-- usbd-storage/src/buffer.rs: what `read` does to a valid buffer.
use usbd_storage.Prelude.{ℕ, ◌+◌, ◌≡◌, ap, ◌∙◌, min, List, length, take, drop, arith}
use usbd_storage.Prelude.Outcome.{done, fail, slice, splice}
use usbd_storage.Buffer.Defs.{Buffer}
use usbd_storage.Buffer.Closures.{Closure, read}
use usbd_storage.Buffer.Contents.{
  IsValid, contents, length-contents, slice-done, available_read-done,
}

module _ {S E : Type 0} (f : Closure S E) (b : Buffer) (s : S) (v : IsValid b) where
  waiting : slice {E = E} b.inner b.rpos (b.rpos + length (contents b)) ≡ done (contents b)
  waiting =
      slice-done b.inner b.rpos (b.rpos + length (contents b)) (omega arith)
        (omega (arith, length-contents b v, v.order, v.within))
      ∙ ap (λ k. done (take k (drop b.rpos b.inner))) (omega (arith, length-contents b v))

  -- On a valid buffer, with a closure that, given exactly the waiting bytes, returns a count,
  -- `read` returns the count, but at most the number of those bytes, and moves on the read
  -- position by it.
  pub read-done :
      (n : ℕ) (ys : List ℕ) (s' : S)
      → f (contents b) s ≡ (done n, ys, s')
      → let k = min n (length (contents b)) in
        read f (b, s)
        ≡ (done k, (record b { inner = splice b.inner b.rpos ys; rpos = b.rpos + k }, s'))
  unfolding read
  read-done n ys s' e =
      ground (arith, available_read-done {E = E} b v, waiting, e, length-contents b v)

  -- A closure that returns an error.
  pub read-fail :
      (e : E) (ys : List ℕ) (s' : S)
      → f (contents b) s ≡ (fail e, ys, s')
      → read f (b, s) ≡ (fail e, (record b { inner = splice b.inner b.rpos ys }, s'))
  unfolding read
  read-fail e ys s' h = ground (arith, available_read-done {E = E} b v, waiting, h)
