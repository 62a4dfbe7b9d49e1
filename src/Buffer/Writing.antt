-- ===== src/Buffer/Writing.antt =====
-- usbd-storage/src/buffer.rs: what the shift and the writes do to a valid buffer.
use usbd_storage.Prelude.{
  ℕ, ◌+◌, ◌-◌, ◌≤◌, ◌≡◌, refl, sym, ap, ◌∙◌, min, List, ◌++◌, length, take, drop, replicate, arith,
  ltb, ◌==◌, inl, inr, Bool-cases, ==_iff, length-take, length-drop, length-replicate, take_all,
  take-append_exact, not_ltb→le,
}
use usbd_storage.Prelude.Outcome.{done, splice}
use usbd_storage.Buffer.Defs.{
  Buffer, clear, shift, make_room, write, fill_up_to, copy_to_front, copy_from_slice,
}
use usbd_storage.Buffer.Contents.{
  IsValid, contents, capacity, length-contents, sub-done, slice-done, available_write-done,
  length-splice, contents-append, append-IsValid,
}

-- The buffer that a shift leaves: the waiting bytes at the front of the storage.
abbrev pub shifted : Buffer → Buffer
shifted b = record { inner = splice b.inner 0 (contents b); rpos = 0; wpos = length (contents b) }

pub record SameBytes (b b' : Buffer) : Type 0 where
  pub valid : IsValid b'
  pub same : contents b' ≡ contents b
  pub room : capacity b' ≡ capacity b

shifted-SameBytes : (b : Buffer) → IsValid b → SameBytes b (shifted b)
shifted-SameBytes b v = record {
  valid = omega (arith, size, length-contents b v, v.order, v.within);
  same =
      take-append_exact (length (contents b) - 0) (contents b)
        (drop (0 + length (contents b)) b.inner) (omega arith);
  room = size;
}
  where
    size : length (splice b.inner 0 (contents b)) ≡ length b.inner
    size =
        length-splice b.inner 0 (contents b) (omega (arith, length-contents b v, v.order, v.within))

-- The bytes `ys` follow those that waited.
pub record Appends (b : Buffer) (ys : List ℕ) (b' : Buffer) : Type 0 where
  pub valid : IsValid b'
  pub holds : contents b' ≡ contents b ++ ys
  pub room : capacity b' ≡ capacity b

abbrev pub appended : Buffer → List ℕ → Buffer
appended b ys = record b { inner = splice b.inner b.wpos ys; wpos = b.wpos + length ys }

appended-Appends :
    (b : Buffer) (ys : List ℕ)
    → IsValid b
    → b.wpos + length ys ≤ capacity b
    → Appends b ys (appended b ys)
appended-Appends b ys v h = record {
  valid = append-IsValid b (length ys) ys v (omega arith) h;
  holds =
      contents-append b (length ys) ys v (omega arith) h
      ∙ ap (λ t. contents b ++ t) (take_all (length ys) ys (omega arith));
  room = length-splice b.inner b.wpos ys h;
}

pub SameBytes-Appends :
    {b b₁ b₂ : Buffer} {ys : List ℕ} → SameBytes b b₁ → Appends b₁ ys b₂ → Appends b ys b₂
SameBytes-Appends {ys} p a = record {
  valid = a.valid;
  holds = a.holds ∙ ap (λ t. t ++ ys) p.same;
  room = a.room ∙ p.room;
}

module _ {E : Type 0} where
  -- On a valid buffer `shift` keeps the waiting bytes, takes them to the front of the storage, and
  -- leaves a valid buffer of the same capacity.
  pub shift-done :
      (b : Buffer)
      → IsValid b
      → (b' : Buffer) × (shift {E = E} b ≡ done b') × SameBytes b b' × (b'.rpos ≡ 0)
  unfolding shift clear copy_to_front
  shift-done b v = elim (Bool-cases (b.rpos == b.wpos)) [
    | inl same ↦ (
      clear b,
      ground (arith, same),
      record {
        valid = omega arith;
        same = sym (
            ap (λ k. take k (drop b.rpos b.inner)) {y = 0}
              (omega (arith, (==_iff b.rpos b.wpos).0 same)));
        room = refl;
      },
      refl,
    )
    | inr differ ↦ (
      shifted b,
      ground (
        arith,
        slice-done {E = E} b.inner b.rpos b.wpos v.order v.within,
        sub-done {E = E} b.wpos b.rpos v.order,
        length-contents b v,
        differ,
      ),
      shifted-SameBytes b v,
      refl,
    )
  ]

  -- After the shift that a write begins with, the room behind the write position is all the room there
  -- is, or it is as much as is wanted.
  pub make_room-done :
      (wanted : ℕ) (b : Buffer)
      → IsValid b
      → (b' : Buffer) × (make_room {E = E} wanted b ≡ done b')
        × SameBytes b b'
        × (min (capacity b' - b'.wpos) wanted ≡ min (capacity b - length (contents b)) wanted)
  unfolding make_room
  make_room-done wanted b v = elim (Bool-cases (ltb (capacity b - b.wpos) wanted)) [
    | inl small ↦
        (let (b', e, p, front) = shift-done b v in
          (
            b',
            ground (arith, available_write-done {E = E} b v, small, e),
            p,
            omega (
              arith,
              front,
              p.valid,
              p.room,
              ap length p.same,
              length-contents b' p.valid,
              length-contents b v,
            ),
          ))
    | inr enough ↦ (
      b,
      ground (arith, available_write-done {E = E} b v, enough),
      record { valid = v; same = refl; room = refl },
      omega (arith, not_ltb→le _ _ enough, length-contents b v, v.order, v.within),
    )
  ]

  copy_from_slice-done :
      (xs : List ℕ) (start end : ℕ) (ys : List ℕ)
      → start + length ys ≡ end
      → end ≤ length xs
      → copy_from_slice {E = E} xs start end ys ≡ done (splice xs start ys)
  unfolding copy_from_slice
  copy_from_slice-done xs start end ys h k = ground (
    arith,
    slice-done {E = E} xs start end (omega arith) k,
    length-take (end - start) (drop start xs),
    length-drop start xs,
  )

  -- The rest of `write`, once there is room for `m` of the bytes.
  write_after_room :
      (bytes : List ℕ) (b b₁ : Buffer) (m : ℕ)
      → make_room {E = E} (length bytes) b ≡ done b₁
      → IsValid b₁
      → min (capacity b₁ - b₁.wpos) (length bytes) ≡ m
      → write {E = E} bytes b ≡ done (m, appended b₁ (take m bytes))
  unfolding write
  write_after_room bytes b b₁ m e v h = ground (
    arith,
    e,
    available_write-done {E = E} b₁ v,
    slice-done {E = E} bytes 0 m (omega arith) (omega arith),
    ap (λ k. take k bytes) size,
    length-take m bytes,
    copy_from_slice-done b₁.inner b₁.wpos (b₁.wpos + m) (take m bytes)
        (omega (arith, length-take m bytes)) (omega (arith, v.within)),
    length-splice b₁.inner b₁.wpos (take m bytes) (omega (arith, length-take m bytes, v.within)),
  )
    where
      size : m - 0 ≡ m
      size = omega arith

  -- On a valid buffer `write` returns the smaller of the room, consumed bytes counted in, and the
  -- length of the data, and appends that many bytes of the data to the waiting ones. The buffer
  -- stays valid, of the same capacity.
  pub write-done :
      (bytes : List ℕ) (b : Buffer)
      → IsValid b
      → let n = min (capacity b - length (contents b)) (length bytes) in
        (b' : Buffer) × (write {E = E} bytes b ≡ done (n, b')) × Appends b (take n bytes) b'
  write-done bytes b v =
      let (b₁, e, p, room) = make_room-done (length bytes) b v in
      let n = min (capacity b - length (contents b)) (length bytes) in
      (
        appended b₁ (take n bytes),
        write_after_room bytes b b₁ n e p.valid room,
        SameBytes-Appends p (
            appended-Appends b₁ (take n bytes) p.valid
              (omega (arith, length-take n bytes, room, p.valid.within))),
      )

  fill_after_room :
      (value up_to : ℕ) (b b₁ : Buffer) (m : ℕ)
      → make_room {E = E} up_to b ≡ done b₁
      → IsValid b₁
      → min (capacity b₁ - b₁.wpos) up_to ≡ m
      → fill_up_to {E = E} value up_to b ≡ done (appended b₁ (replicate m value))
  unfolding fill_up_to
  fill_after_room value up_to b b₁ m e v h = ground (
    arith,
    e,
    available_write-done {E = E} b₁ v,
    length-replicate m value,
    copy_from_slice-done b₁.inner b₁.wpos (b₁.wpos + m) (replicate m value)
        (omega (arith, length-replicate m value)) (omega (arith, v.within)),
    length-splice b₁.inner b₁.wpos (replicate m value)
        (omega (arith, length-replicate m value, v.within)),
  )

  -- On a valid buffer `fill_up_to` appends `up_to` copies of the value to the waiting bytes, or as
  -- many as there is room for, consumed bytes counted in. The buffer stays valid, of the same
  -- capacity.
  pub fill_up_to-done :
      (value up_to : ℕ) (b : Buffer)
      → IsValid b
      → let n = min (capacity b - length (contents b)) up_to in
        (b' : Buffer) × (fill_up_to {E = E} value up_to b ≡ done b')
        × Appends b (replicate n value) b'
  fill_up_to-done value up_to b v =
      let (b₁, e, p, room) = make_room-done up_to b v in
      let n = min (capacity b - length (contents b)) up_to in
      (
        appended b₁ (replicate n value),
        fill_after_room value up_to b b₁ n e p.valid room,
        SameBytes-Appends p (
            appended-Appends b₁ (replicate n value) p.valid
              (omega (arith, length-replicate n value, room, p.valid.within))),
      )
