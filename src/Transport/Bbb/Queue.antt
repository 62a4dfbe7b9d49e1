-- ===== src/Transport/Bbb/Queue.antt =====
-- usbd-storage/src/buffer.rs, by the closure with which usbd-storage/src/transport/bbb.rs reads: the buffer
-- as a queue of bytes with a bound.
use usbd_storage.Prelude.{
  ℕ, ◌+◌, ◌-◌, ◌≡◌, refl, ap, ap₂, ◌∙◌, min, List, [], ◌∷◌, ◌++◌, length, take, drop, replicate,
  arith,
}
use usbd_storage.Prelude.Outcome.{Outcome, done, ◌>>=◌, splice}
use usbd_storage.Buffer
use usbd_storage.Buffer.{Buffer}
use usbd_storage.Buffer.Contents.{
  IsValid, contents, capacity, length-contents, contents-consume, consume-IsValid, length-splice,
}
use usbd_storage.Buffer.Reading.{read-done}
use usbd_storage.Buffer.Writing.{write-done, fill_up_to-done, shift-done}
use usbd_storage.Transport.Bbb.Copies.{read_data_closure}
use usbd_storage.Transport.Bbb.ApiSafety.{closure_takes}

pub data Op : Type 0 where
  write : List ℕ → Op
  fill_up_to : ℕ → ℕ → Op
  read : List ℕ → Op
  shift : Op
  clear : Op

-- What a call returns: a count, and the destination of a read as the call leaves it.
abbrev pub Reply : Type 0
Reply = ℕ × List ℕ

-- The replies of calls that fill no destination.
abbrev pub written : Outcome ⊥ (ℕ × Buffer) → Outcome ⊥ (Reply × Buffer)
written r = r >>= λ (n, b'). done ((n, []), b')

abbrev pub silent : Outcome ⊥ Buffer → Outcome ⊥ (Reply × Buffer)
silent r = r >>= λ b'. done ((0, []), b')

-- The buffer itself.
abbrev pub call : Op → Buffer → Outcome ⊥ (Reply × Buffer)
call (write bytes) b = written (Buffer.write bytes b)
call (fill_up_to value up_to) b = silent (Buffer.fill_up_to value up_to b)
call (read dst) b =
    let (r, s) = Buffer.read read_data_closure (b, dst) in r >>= λ n. done ((n, s.1), s.0)
call shift b = silent (Buffer.shift b)
call clear b = done ((0, []), Buffer.clear b)

abbrev pub calls : List Op → Buffer → Outcome ⊥ (List Reply × Buffer)
calls [] b = done ([], b)
calls (op ∷ ops) b = call op b >>= λ (r, b'). calls ops b' >>= λ (rs, b''). done (r ∷ rs, b'')

-- A queue of at most `bound` bytes, without positions and storage.
abbrev pub queue_call : ℕ → Op → List ℕ → Reply × List ℕ
queue_call bound (write bytes) xs =
    let n = min (bound - length xs) (length bytes) in ((n, []), xs ++ take n bytes)
queue_call bound (fill_up_to value up_to) xs =
    ((0, []), xs ++ replicate (min (bound - length xs) up_to) value)
queue_call bound (read dst) xs =
    let n = min (length dst) (length xs) in ((n, take n xs ++ drop n dst), drop n xs)
queue_call bound shift xs = ((0, []), xs)
queue_call bound clear xs = ((0, []), [])

abbrev pub queue_calls : ℕ → List Op → List ℕ → List Reply × List ℕ
queue_calls bound [] xs = ([], xs)
queue_calls bound (op ∷ ops) xs =
    let (r, xs') = queue_call bound op xs in
    let (rs, xs'') = queue_calls bound ops xs' in (r ∷ rs, xs'')

-- A call of the buffer ends normally, with the reply and the bytes of the queue.
pub record CallRefines (op : Op) (b : Buffer) : Type 0 where
  pub after : Buffer
  pub run : call op b ≡ done ((queue_call (capacity b) op (contents b)).0, after)
  pub holds : contents after ≡ (queue_call (capacity b) op (contents b)).1
  pub valid : IsValid after
  pub room : capacity after ≡ capacity b

cleared : (b : Buffer) → CallRefines clear b
unfolding Buffer.clear
cleared b = record {
  after = record b { rpos = 0; wpos = 0 };
  run = refl;
  holds = refl;
  valid = omega arith;
  room = refl;
}

call-CallRefines : (op : Op) (b : Buffer) → IsValid b → CallRefines op b
call-CallRefines (write bytes) b v =
    let (b', run, added) = write-done {E = ⊥} bytes b v in
    record {
      after = b';
      run = ap written run;
      holds = added.holds;
      valid = added.valid;
      room = added.room;
    }
call-CallRefines (fill_up_to value up_to) b v =
    let (b', run, added) = fill_up_to-done {E = ⊥} value up_to b v in
    record {
      after = b';
      run = ap silent run;
      holds = added.holds;
      valid = added.valid;
      room = added.room;
    }
call-CallRefines (read dst) b v =
    let n = min (length dst) (length (contents b)) in
    let advanced =
      λ (k : ℕ). record b { inner = splice b.inner b.rpos (contents b); rpos = b.rpos + k } in
    record {
      after = advanced n;
      run =
          ap (λ (r : Outcome ⊥ ℕ × (Buffer × List ℕ)). r.0 >>= λ n. done ((n, r.1.1), r.1.0))
            (read-done read_data_closure b dst v n (contents b) _ (closure_takes (contents b) dst))
          ∙ ap (λ k. done ((k, take n (contents b) ++ drop n dst), advanced k))
              {x = min n (length (contents b))} {y = n} (omega arith);
      holds = contents-consume b n (contents b) v refl (omega arith);
      valid = consume-IsValid b n (contents b) v refl (omega arith);
      room = length-splice b.inner b.rpos (contents b) (omega (arith, v, length-contents b v));
    }
call-CallRefines shift b v =
    let (b', run, kept, front) = shift-done {E = ⊥} b v in
    record {
      after = b';
      run = ap silent run;
      holds = kept.same;
      valid = kept.valid;
      room = kept.room;
    }
call-CallRefines clear b v = cleared b

-- Of a valid buffer, every sequence of writes, fillings, reads (by the closure of `read_data`),
-- shifts and clearings ends normally. The replies, and the bytes that wait in the end, are those
-- of a queue of the capacity of the buffer; the buffer is valid, and of the same capacity.
pub calls_refine :
    (ops : List Op) (b : Buffer)
    → IsValid b
    → (b' : Buffer) × (calls ops b ≡ done ((queue_calls (capacity b) ops (contents b)).0, b'))
      × (contents b' ≡ (queue_calls (capacity b) ops (contents b)).1)
      × IsValid b'
      × (capacity b' ≡ capacity b)
calls_refine [] b v = (b, refl, refl, v, refl)
calls_refine (op ∷ ops) b v =
    let c = call-CallRefines op b v in
    let (b', run, holds, valid, room) = calls_refine ops c.after c.valid in
    let next = λ (p : ℕ × List ℕ). queue_calls p.0 ops p.1 in
    let same : next (capacity c.after, contents c.after)
        ≡ next (capacity b, (queue_call (capacity b) op (contents b)).1) =
      ap₂ (λ k xs. queue_calls k ops xs) c.room c.holds in
    let r = (queue_call (capacity b) op (contents b)).0 in
    (
      b',
      ap (λ x. x >>= λ (r, b'). calls ops b' >>= λ (rs, b''). done (r ∷ rs, b'')) c.run
          ∙ ap (λ x. x >>= λ (rs, b''). done (r ∷ rs, b'')) run
          ∙ ap (λ q. done (r ∷ q.0, b')) same,
      holds ∙ ap (λ q. q.1) same,
      valid,
      room ∙ c.room,
    )
