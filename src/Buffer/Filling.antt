-- ===== src/Buffer/Filling.antt =====
-- usbd-storage/src/buffer.rs: what `write_all` does to a valid buffer.
use usbd_storage.Prelude.{
  ℕ, ◌+◌, ◌-◌, ◌≤◌, ◌<◌, ◌≡◌, ap, ◌∙◌, List, length, take, drop, arith, length-take, length-drop,
}
use usbd_storage.Prelude.Outcome.{done, fail, slice, splice}
use usbd_storage.Buffer.Defs.{Buffer, make_room}
use usbd_storage.Buffer.Closures.{Closure, write_all}
use usbd_storage.Buffer.Contents.{
  IsValid, contents, capacity, sub-done, slice-done, available_write-done, length-splice,
  contents-append, contents-overwrite, append-IsValid,
}
use usbd_storage.Buffer.Writing.{SameBytes, Appends, SameBytes-Appends, make_room-done}

-- The slice that `write_all` hands to its closure: what the storage holds behind the write position.
abbrev pub spare : ℕ → Buffer → List ℕ
spare n b = take n (drop b.wpos b.inner)

module _ {S E : Type 0} (max_count : ℕ) (overflow_err : E) (f : Closure S E) (b : Buffer) (s : S)
    (v : IsValid b) where
  -- On a valid buffer with less room than `max_count`, consumed bytes counted in, `write_all`
  -- returns the overflow error, keeps the waiting bytes and does not run the closure: what it
  -- captures is unchanged.
  pub write_all_overflow :
      capacity b - length (contents b) < max_count
      → (b' : Buffer) × (write_all max_count overflow_err f (b, s) ≡ (fail overflow_err, (b', s)))
        × SameBytes b b'
  unfolding write_all
  write_all_overflow h =
      let (b₁, e, p, room) = make_room-done {E = E} max_count b v in
      (b₁, ground (arith, e, available_write-done {E = E} b₁ p.valid, room, h), p)

  module _ (b₁ : Buffer) (e : make_room {E = E} max_count b ≡ done b₁) (v₁ : IsValid b₁)
      (fits : b₁.wpos + max_count ≤ capacity b₁) where
    spare-slice : slice {E = E} b₁.inner b₁.wpos (b₁.wpos + max_count) ≡ done (spare max_count b₁)
    spare-slice =
        slice-done b₁.inner b₁.wpos (b₁.wpos + max_count) (omega arith) fits
        ∙ ap (λ k. done (take k (drop b₁.wpos b₁.inner))) (omega arith)

    -- The closure returns `n`: that many bytes of the slice, as it leaves them, are counted in.
    write_all_taken :
        (n : ℕ) (ys : List ℕ) (s' : S)
        → f (spare max_count b₁) s ≡ (done n, ys, s')
        → length ys ≡ max_count
        → n ≤ max_count
        → write_all max_count overflow_err f (b, s)
          ≡ (done n, (record b₁ { inner = splice b₁.inner b₁.wpos ys; wpos = b₁.wpos + n }, s'))
    unfolding write_all
    write_all_taken n ys s' h hy hn = ground (
      arith,
      e,
      available_write-done {E = E} b₁ v₁,
      spare-slice,
      h,
      length-splice b₁.inner b₁.wpos ys (omega arith),
      sub-done {E = E} (length (splice b₁.inner b₁.wpos ys)) b₁.wpos
          (omega (arith, length-splice b₁.inner b₁.wpos ys (omega arith))),
    )

    write_all_failed :
        (x : E) (ys : List ℕ) (s' : S)
        → f (spare max_count b₁) s ≡ (fail x, ys, s')
        → write_all max_count overflow_err f (b, s)
          ≡ (fail x, (record b₁ { inner = splice b₁.inner b₁.wpos ys }, s'))
    unfolding write_all
    write_all_failed x ys s' h =
        ground (arith, e, available_write-done {E = E} b₁ v₁, spare-slice, h)

  abbrev pub Taken : List ℕ → Type 0
  Taken bytes =
      (n : ℕ) (ys : List ℕ) (s' : S)
      → f bytes s ≡ (done n, ys, s')
      → length ys ≡ max_count
      → n ≤ max_count
      → (b' : Buffer) × (write_all max_count overflow_err f (b, s) ≡ (done n, (b', s')))
        × Appends b (take n ys) b'

  abbrev pub Failed : List ℕ → Type 0
  Failed bytes =
      (x : E) (ys : List ℕ) (s' : S)
      → f bytes s ≡ (fail x, ys, s')
      → length ys ≡ max_count
      → (b' : Buffer) × (write_all max_count overflow_err f (b, s) ≡ (fail x, (b', s')))
        × SameBytes b b'

  -- With the room the closure is run on a slice of the wanted length. What it counts in is appended,
  -- and an error of its own keeps the bytes.
  pub write_all_runs :
      max_count ≤ capacity b - length (contents b)
      → (bytes : List ℕ) × (length bytes ≡ max_count) × Taken bytes × Failed bytes
  write_all_runs h =
      let (b₁, e, p, room) = make_room-done {E = E} max_count b v in
      let fits : b₁.wpos + max_count ≤ capacity b₁ = omega (arith, room, h, p.valid.within) in
      (
        spare max_count b₁,
        omega (
          arith,
          length-take max_count (drop b₁.wpos b₁.inner),
          length-drop b₁.wpos b₁.inner,
          fits,
        ),
        (λ n ys s' g hy hn. (
          record b₁ { inner = splice b₁.inner b₁.wpos ys; wpos = b₁.wpos + n },
          write_all_taken b₁ e p.valid fits n ys s' g hy hn,
          SameBytes-Appends p (partly b₁ n ys p.valid fits hy hn),
        )),
        (λ x ys s' g hy. (
          record b₁ { inner = splice b₁.inner b₁.wpos ys },
          write_all_failed b₁ e p.valid fits x ys s' g,
          overwritten b₁ ys p fits hy,
        )),
      )
    where
      partly :
          (b₁ : Buffer) (n : ℕ) (ys : List ℕ)
          → IsValid b₁
          → b₁.wpos + max_count ≤ capacity b₁
          → length ys ≡ max_count
          → n ≤ max_count
          → Appends b₁
              (take n ys)
              (record b₁ { inner = splice b₁.inner b₁.wpos ys; wpos = b₁.wpos + n })
      partly b₁ n ys v₁ fits hy hn = record {
        valid = append-IsValid b₁ n ys v₁ (omega arith) (omega arith);
        holds = contents-append b₁ n ys v₁ (omega arith) (omega arith);
        room = length-splice b₁.inner b₁.wpos ys (omega arith);
      }

      overwritten :
          (b₁ : Buffer) (ys : List ℕ)
          → SameBytes b b₁
          → b₁.wpos + max_count ≤ capacity b₁
          → length ys ≡ max_count
          → SameBytes b (record b₁ { inner = splice b₁.inner b₁.wpos ys })
      overwritten b₁ ys p fits hy = record {
        valid = omega (arith, p.valid, length-splice b₁.inner b₁.wpos ys (omega arith));
        same = contents-overwrite b₁ ys p.valid (omega arith) ∙ p.same;
        room = length-splice b₁.inner b₁.wpos ys (omega arith) ∙ p.room;
      }
