-- ===== src/Buffer/Contents.antt =====
-- usbd-storage/src/buffer.rs: what a buffer holds, as a list of bytes, and when its positions are sound.
use usbd_storage.Prelude.{
  append-nil, ℕ, ◌+◌, ◌-◌, ◌≤◌, ◌≡◌, ap, ap₂, ◌∙◌, List, ◌++◌, length, take, drop, arith, le→leb,
  length-append, length-take, length-drop, drop-append_le, drop-take, take-append_add,
  take-append_le, take-append_exact, drop-append_add,
}
use usbd_storage.Prelude.Outcome.{done, sub, slice, splice}
use usbd_storage.Buffer.Defs.{Buffer, available_read, available_write}

pub record IsValid (b : Buffer) : Type 0 where
  pub order : b.rpos ≤ b.wpos
  pub within : b.wpos ≤ length b.inner

-- The bytes that wait to be read, oldest first.
abbrev pub contents : Buffer → List ℕ
contents b = take (b.wpos - b.rpos) (drop b.rpos b.inner)

abbrev pub capacity : Buffer → ℕ
capacity b = length b.inner

pub length-contents : (b : Buffer) → IsValid b → length (contents b) ≡ b.wpos - b.rpos
length-contents b v =
    omega (arith, length-take (b.wpos - b.rpos) (drop b.rpos b.inner), length-drop b.rpos b.inner)

pub length-splice :
    (xs : List ℕ) (start : ℕ) (ys : List ℕ)
    → start + length ys ≤ length xs
    → length (splice xs start ys) ≡ length xs
length-splice xs start ys h = omega (
  arith,
  length-append (take start xs) (ys ++ drop (start + length ys) xs),
  length-append ys (drop (start + length ys) xs),
  length-take start xs,
  length-drop (start + length ys) xs,
)

module _ {E : Type 0} where
  pub sub-done : (a b : ℕ) → b ≤ a → sub {E = E} a b ≡ done (a - b)
  unfolding sub
  sub-done a b h = rw (le→leb b a h)

  pub slice-done :
      (xs : List ℕ) (start end : ℕ)
      → start ≤ end
      → end ≤ length xs
      → slice {E = E} xs start end ≡ done (take (end - start) (drop start xs))
  unfolding slice
  slice-done xs start end h k = rw (le→leb start end h) (rw (le→leb end (length xs) k))

  pub available_read-done :
      (b : Buffer) → IsValid b → available_read {E = E} b ≡ done (length (contents b))
  unfolding available_read
  available_read-done b v = rw (length-contents b v) (sub-done b.wpos b.rpos v.order)

  pub available_write-done :
      (b : Buffer) → IsValid b → available_write {E = E} b ≡ done (capacity b - b.wpos)
  unfolding available_write
  available_write-done b v = sub-done (length b.inner) b.wpos v.within

-- Bytes put behind the write position, of which `k` are then counted in, follow what was there.
pub contents-append :
    (b : Buffer) (k : ℕ) (ys : List ℕ)
    → IsValid b
    → k ≤ length ys
    → b.wpos + length ys ≤ capacity b
    → contents (record b { inner = splice b.inner b.wpos ys; wpos = b.wpos + k })
      ≡ contents b ++ take k ys
contents-append b k ys v hk hw =
    ap₂ take {x = b.wpos + k - b.rpos} {y = (b.wpos - b.rpos) + k} (omega (arith, v.order)) front
    ∙ take-append_add (b.wpos - b.rpos) k (contents b) (ys ++ rest) (length-contents b v)
    ∙ ap (λ t. contents b ++ t) (take-append_le k ys rest hk)
  where
    rest : List ℕ
    rest = drop (b.wpos + length ys) b.inner

    front : drop b.rpos (splice b.inner b.wpos ys) ≡ contents b ++ (ys ++ rest)
    front =
        drop-append_le b.rpos (take b.wpos b.inner) (ys ++ rest)
          (omega (arith, length-take b.wpos b.inner, v.order, v.within))
        ∙ ap (λ t. t ++ (ys ++ rest)) (drop-take b.rpos b.wpos b.inner)

pub append-IsValid :
    (b : Buffer) (k : ℕ) (ys : List ℕ)
    → IsValid b
    → k ≤ length ys
    → b.wpos + length ys ≤ capacity b
    → IsValid (record b { inner = splice b.inner b.wpos ys; wpos = b.wpos + k })
append-IsValid b k ys v hk hw = omega (arith, length-splice b.inner b.wpos ys hw, v.order, v.within)

-- Bytes put in place of those that wait, of which `k` are then counted out, leave the others.
pub contents-consume :
    (b : Buffer) (k : ℕ) (ys : List ℕ)
    → IsValid b
    → length ys ≡ length (contents b)
    → k ≤ length ys
    → contents (record b { inner = splice b.inner b.rpos ys; rpos = b.rpos + k }) ≡ drop k ys
contents-consume b k ys v hy hk =
    ap (λ t. take (b.wpos - (b.rpos + k)) t) front
    ∙ take-append_exact (b.wpos - (b.rpos + k)) (drop k ys) rest
        (omega (arith, length-drop k ys, hy, length-contents b v))
  where
    rest : List ℕ
    rest = drop (b.rpos + length ys) b.inner

    front : drop (b.rpos + k) (splice b.inner b.rpos ys) ≡ drop k ys ++ rest
    front =
        drop-append_add b.rpos k (take b.rpos b.inner) (ys ++ rest)
          (omega (arith, length-take b.rpos b.inner, v.order, v.within))
        ∙ drop-append_le k ys rest hk

pub consume-IsValid :
    (b : Buffer) (k : ℕ) (ys : List ℕ)
    → IsValid b
    → length ys ≡ length (contents b)
    → k ≤ length ys
    → IsValid (record b { inner = splice b.inner b.rpos ys; rpos = b.rpos + k })
consume-IsValid b k ys v hy hk = omega (
  arith,
  length-splice b.inner b.rpos ys (omega (arith, v.order, v.within, hy, length-contents b v)),
  length-contents b v,
  v.order,
  v.within,
)

-- Bytes put behind the write position, none of which is counted in, change nothing.
pub contents-overwrite :
    (b : Buffer) (ys : List ℕ)
    → IsValid b
    → b.wpos + length ys ≤ capacity b
    → contents (record b { inner = splice b.inner b.wpos ys }) ≡ contents b
contents-overwrite b ys v h =
    ap (λ w. contents (record b { inner = splice b.inner b.wpos ys; wpos = w })) {y = b.wpos + 0}
      (omega arith)
    ∙ contents-append b 0 ys v (omega arith) h
    ∙ append-nil (contents b)
