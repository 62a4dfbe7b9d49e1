-- ===== src/Transport/Bbb/Flow/ToHost.antt =====
-- usbd-storage/src/transport/bbb.rs: the handlers that send, with a status set: each pays.
use usbd_storage.Prelude.{
  ℕ, ◌+◌, ◌-◌, ◌≤◌, ◌≡◌, ◌≢◌, refl, sym, subst, ap, ap₂, ◌∙◌, ◌⊎◌, inl, inr, min, true, false,
  ==_iff, zero, suc, some, List, [], ◌∷◌, ◌++◌, length, replicate, arith, append_assoc, ◌==◌,
  Bool-cases, length-append, length-replicate,
}
use usbd_storage.Prelude.Outcome.{done}
use usbd_storage.Buffer.Contents.{contents}
use usbd_storage.Transport.{UsbStack, IsLawful}
use usbd_storage.Transport.Bbb.Types.{
  BulkOnly, Method, StatusAndResidue, fill_byte, status_transfer, data_transfer_to_host,
  data_transfer_to_host_ending, data_transfer_status_await, data_transfer_from_host_status_await,
}
use usbd_storage.Transport.Bbb.Wrapper.{csw_bytes}
use usbd_storage.Transport.Bbb.Packets.{packet_size}
use usbd_storage.Transport.Bbb.States.{
  enter_state_status_transfer, enter_state_data_transfer_to_host_ending,
  enter_state_data_transfer_status_await,
}
use usbd_storage.Transport.Bbb.Handlers.{
  handle_data_transfer_to_host, handle_data_transfer_to_host_ending,
  handle_data_transfer_status_await, has_status,
}
use usbd_storage.Transport.Bbb.Invariant.{
  Base, Inv, WithinTransfer, enter_status, length-csw_bytes, in_other_state, Commanded, commanded,
}
use usbd_storage.Transport.Bbb.StatusSafety.{awaits-Commanded, await_some}
use usbd_storage.Transport.Bbb.HostSafety.{moved, moved-Base}
use usbd_storage.Transport.Bbb.ToHostSafety.{assert_within, ending_fills}
use usbd_storage.Transport.Bbb.Flow.{SendsOn, data_owed, csw_owed, tail_owed, owed_in_state, Pays}
use usbd_storage.Transport.Bbb.Flow.Sending.{empty_of_length, OwesData, send_and_mark-Pays}

replicate_add : (m n a : ℕ) → m ≤ n → replicate n a ≡ replicate m a ++ replicate (n - m) a
replicate_add zero n a h = ap (λ j. replicate j a) {x = n} {y = n - 0} (omega arith)
replicate_add (suc m) zero a h = absurd (omega arith)
replicate_add (suc m) (suc n) a h =
    ap (λ r. a ∷ r)
      (replicate_add m n a (omega arith)
        ∙ ap (λ j. replicate m a ++ replicate j a) {x = n - m} {y = suc n - suc m} (omega arith))

-- Where no byte is left to transfer, only the CSW is owed.
pub csw_only :
    {World Endpoint : Type 0} (t : BulkOnly World Endpoint)
    → WithinTransfer t
    → t.left_to_transfer ≡ 0
    → csw_owed t ≡ data_owed t
csw_only t within none_left =
    let gap : t.left_to_transfer - length (contents t.buf) ≡ 0 = omega (arith, none_left) in
    ap₂ (λ x n. x ++ tail_owed t.cs n t.cbw.tag)
      (sym (empty_of_length (contents t.buf) (omega (arith, within, none_left)))) (sym gap)

module _ {World Endpoint UsbError : Type 0} (stack : UsbStack World Endpoint UsbError) where
  -- A stand-in for `handle_status_transfer` that offers a part of what waits.
  abbrev pub PaysStatus : Method World Endpoint UsbError (Unit {0}) → Type 0
  PaysStatus k =
      (t : BulkOnly World Endpoint)
      → Inv stack t
      → t.state ≡ status_transfer
      → contents t.buf ≢ []
      → 1 ≤ packet_size stack t
      → Pays stack t.in_ep t.bus t.cs (contents t.buf) (k t).1

  module _ (k : Method World Endpoint UsbError (Unit {0})) (pays : PaysStatus k) where
    pub status_begins-Pays :
        (t : BulkOnly World Endpoint) (s : StatusAndResidue)
        → Base stack t
        → t.cs ≡ some s
        → Commanded t.state
        → 1 ≤ packet_size stack t
        → (t' : BulkOnly World Endpoint) × (enter_state_status_transfer stack t ≡ (done tt, t'))
          × Pays stack t.in_ep t.bus t.cs (csw_owed t) (k t').1
    unfolding packet_size
    status_begins-Pays t s v h on pos =
        let (t', e) = enter_status stack t s v h on in
        let state : t'.state ≡ status_transfer = ap (λ u. u.state) e.only_buffer in
        let full : contents t'.buf ≢ [] = λ empty.
          omega (arith, length-csw_bytes stack t.cbw.tag s, ap length e.holds, ap length empty) in
        let ep : t'.in_ep ≡ t.in_ep = ap (λ u. u.in_ep) e.only_buffer in
        let bus : t'.bus ≡ t.bus = ap (λ u. u.bus) e.only_buffer in
        let debt : contents t'.buf ≡ csw_owed t =
          e.holds ∙ ap (λ c. tail_owed c 0 t.cbw.tag) (sym h) in
        let cs : t'.cs ≡ t.cs = ap (λ u. u.cs) e.only_buffer in
        (
          t',
          e.run,
          subst (λ ep. Pays stack ep t.bus t.cs (csw_owed t) (k t').1) ep
              (subst (λ w. Pays stack t'.in_ep w t.cs (csw_owed t) (k t').1) bus
                (subst (λ o. Pays stack t'.in_ep t'.bus o (csw_owed t) (k t').1) cs
                  (subst (λ p. Pays stack t'.in_ep t'.bus t'.cs p (k t').1) debt
                    (pays t' e.inv state full
                      (subst (λ ep. 1 ≤ stack.max_packet_size ep) (sym ep) pos))))),
        )

    pub await-Pays :
        (t : BulkOnly World Endpoint) (s : StatusAndResidue)
        → Base stack t
        → t.cs ≡ some s
        → (t.state ≡ data_transfer_status_await) ⊎ (t.state ≡ data_transfer_from_host_status_await)
        → 1 ≤ packet_size stack t
        → Pays stack t.in_ep t.bus t.cs (csw_owed t) (handle_data_transfer_status_await stack k t).1
    await-Pays t s v c h pos =
        let (t', e, next) = status_begins-Pays t s v c (awaits-Commanded h) pos in
        subst (Pays stack t.in_ep t.bus t.cs (csw_owed t))
          (sym (ap (λ r. r.1) (await_some stack k t t' s c h e))) next

    module _ (law : IsLawful stack) where
      ending_owes :
          (t : BulkOnly World Endpoint)
          → t.state ≡ data_transfer_to_host_ending
          → OwesData stack law t
      ending_owes t h b w left =
          owed_in_state data_transfer_to_host_ending (moved stack law t b w left) h

      -- The filler that is added was owed.
      filler_owed :
          (c b : List ℕ) (gap left : ℕ) (s : StatusAndResidue) (tag : ℕ)
          → b ≡ c ++ replicate gap fill_byte
          → length c + gap ≤ left
          → c ++ tail_owed (some s) (left - length c) tag
            ≡ b ++ tail_owed (some s) (left - length b) tag
      filler_owed c b gap left s tag e h =
          ap (λ r. c ++ (r ++ csw_bytes tag s))
            (replicate_add gap (left - length c) fill_byte (omega arith))
          ∙ ap (λ r. c ++ r) (append_assoc (replicate gap fill_byte) rest (csw_bytes tag s))
          ∙ sym (append_assoc c (replicate gap fill_byte) (rest ++ csw_bytes tag s))
          ∙ ap₂ (λ x n. x ++ (replicate n fill_byte ++ csw_bytes tag s)) (sym e)
              (omega (
                arith,
                ap length e,
                length-append c (replicate gap fill_byte),
                length-replicate gap fill_byte,
              ))
        where
          rest : List ℕ
          rest = replicate (left - length c - gap) fill_byte

      ending_over :
          (t t' : BulkOnly World Endpoint)
          → Base stack t
          → t.state ≡ data_transfer_to_host_ending
          → WithinTransfer t
          → enter_state_status_transfer stack t ≡ (done tt, t')
          → (min t.left_to_transfer (packet_size stack t) == 0) ≡ true
          → handle_data_transfer_to_host_ending stack k t ≡ k t'
      unfolding handle_data_transfer_to_host_ending
      ending_over t t' v h within e all = ground (arith, assert_within stack law t v within, e, all)

      pub ending-Pays :
          (t : BulkOnly World Endpoint) (s : StatusAndResidue)
          → Base stack t
          → t.state ≡ data_transfer_to_host_ending
          → WithinTransfer t
          → t.cs ≡ some s
          → 1 ≤ packet_size stack t
          → Pays stack t.in_ep t.bus t.cs
              (data_owed t)
              (handle_data_transfer_to_host_ending stack k t).1
      ending-Pays t s v h within c pos =
          elim (Bool-cases (min t.left_to_transfer (packet_size stack t) == 0)) [
            | inl all ↦
                (let (t', e, next) = status_begins-Pays t s v c (commanded h tt) pos in
                  let debt : csw_owed t ≡ data_owed t =
                    csw_only t within (ground (arith, pos, all)) in
                  subst
                    (λ p.
                      Pays stack t.in_ep t.bus t.cs p
                        (handle_data_transfer_to_host_ending stack k t).1)
                    debt
                    (subst (Pays stack t.in_ep t.bus t.cs (csw_owed t))
                      (sym (ap (λ r. r.1) (ending_over t t' v h within e all))) next))
            | inr more ↦
                (let (b, gap, filled) = ending_fills stack law k t v h within (λ e. ground arith) in
                  let t₁ = record t { buf = b } in
                  let size : length (contents b) ≡ length (contents t.buf) + gap = omega (
                    arith,
                    ap length filled.holds,
                    length-append (contents t.buf) (replicate gap fill_byte),
                    length-replicate gap fill_byte,
                  ) in
                  let debt : data_owed t ≡ data_owed t₁ =
                    ap
                      (λ o.
                        contents t.buf
                        ++ tail_owed o (t.left_to_transfer - length (contents t.buf)) t.cbw.tag)
                      c
                    ∙ filler_owed (contents t.buf) (contents b) gap t.left_to_transfer s t.cbw.tag
                        filled.holds filled.within
                    ∙ ap
                        (λ o.
                          contents b
                          ++ tail_owed o (t.left_to_transfer - length (contents b)) t.cbw.tag)
                        (sym c) in
                  let sends =
                    send_and_mark-Pays stack law t₁ (data_owed t)
                      (moved-Base stack law t b t.bus t.left_to_transfer v filled.valid filled.room)
                      (omega (arith, size, filled.within)) (ending_owes t h) debt
                      (subst SendsOn (sym h) tt) (unfold packet_size in pos) in
                  subst (Pays stack t.in_ep t.bus t.cs (data_owed t))
                    (sym (ap (λ r. r.1) filled.run))
                    (elim sends [
                      | inl (some_wait, paid) ↦ paid
                      | inr (empty, quiet) ↦
                          absurd (ground (arith, more, ap length empty, size, filled.enough))
                    ]))
          ]

      to_host_over :
          (t : BulkOnly World Endpoint)
          → Base stack t
          → t.state ≡ data_transfer_to_host
          → WithinTransfer t
          → (t.left_to_transfer == 0) ≡ true
          → handle_data_transfer_to_host stack k t
            ≡ handle_data_transfer_status_await stack k
                (record t { state = data_transfer_status_await })
      unfolding handle_data_transfer_to_host enter_state_data_transfer_status_await
      to_host_over t v h within all = ground (arith, assert_within stack law t v within, all)

      to_host_ends :
          (t : BulkOnly World Endpoint) (s : StatusAndResidue)
          → Base stack t
          → t.state ≡ data_transfer_to_host
          → WithinTransfer t
          → t.cs ≡ some s
          → (t.left_to_transfer == 0) ≡ false
          → handle_data_transfer_to_host stack k t
            ≡ handle_data_transfer_to_host_ending stack k
                (record t { state = data_transfer_to_host_ending })
      unfolding handle_data_transfer_to_host enter_state_data_transfer_to_host_ending has_status
      to_host_ends t s v h within c more =
          ground (arith, assert_within stack law t v within, c, more)

      pub to_host-Pays :
          (t : BulkOnly World Endpoint) (s : StatusAndResidue)
          → Base stack t
          → t.state ≡ data_transfer_to_host
          → WithinTransfer t
          → t.cs ≡ some s
          → 1 ≤ packet_size stack t
          → Pays stack t.in_ep t.bus t.cs (data_owed t) (handle_data_transfer_to_host stack k t).1
      to_host-Pays t s v h within c pos = elim (Bool-cases (t.left_to_transfer == 0)) [
        | inl all ↦
            (let t' = record t { state = data_transfer_status_await } in
              let none_left : t.left_to_transfer ≡ 0 = (==_iff t.left_to_transfer 0).0 all in
              subst
                (λ p. Pays stack t.in_ep t.bus t.cs p (handle_data_transfer_to_host stack k t).1)
                (csw_only t within none_left)
                (subst (Pays stack t.in_ep t.bus t.cs (csw_owed t))
                  (sym (ap (λ r. r.1) (to_host_over t v h within all)))
                  (await-Pays t' s (in_other_state stack t _ (commanded h tt) v) c (inl refl)
                    (unfold packet_size in pos))))
        | inr more ↦
            (let t' = record t { state = data_transfer_to_host_ending } in
              subst (Pays stack t.in_ep t.bus t.cs (data_owed t))
                (sym (ap (λ r. r.1) (to_host_ends t s v h within c more)))
                (ending-Pays t' s (in_other_state stack t _ (commanded h tt) v) refl within c
                  (unfold packet_size in pos)))
      ]
