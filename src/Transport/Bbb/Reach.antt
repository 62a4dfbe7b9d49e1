-- ===== src/Transport/Bbb/Reach.antt =====
-- usbd-storage/src/transport/bbb.rs: the calls that the usb-device stack and a subclass make, in any
-- order, as steps of the transport.
use usbd_storage.Prelude.{
  ℕ, ◌-◌, Bool, true, false, if◌then◌else◌, ◌≤◌, ◌<◌, ◌^◌, ◌≡◌, refl, sym, ap, ◌∙◌, subst, ltb,
  ltb→lt, not_ltb→le, not, ◌==◌, ◌&&◌, Bool-cases, none, some, List, length, arith, inl, inr, ◌⊎◌,
}
use usbd_storage.Prelude.Outcome.{Outcome, done, fail, panic, out_of_fuel}
use usbd_storage.Prelude.Proc.{Ensures}
use usbd_storage.Buffer
use usbd_storage.Buffer.{Buffer}
use usbd_storage.Buffer.Contents.{contents, capacity}
use usbd_storage.Transport.{UsbStack, IsLawful, CommandStatus, ControlRequest}
use usbd_storage.Transport.Bbb.Types.{
  BulkOnly, State, default_cbw, command_transfer, command_transfer_invalid, data_transfer_no_data,
  status_transfer, data_transfer_to_host, data_transfer_to_host_ending, data_transfer_from_host,
  data_transfer_from_host_status_await, data_transfer_from_host_ending, data_transfer_status_await,
}
use usbd_storage.Transport.Bbb.Packets.{packet_size}
use usbd_storage.Transport.Bbb.Handlers.{poll}
use usbd_storage.Transport.Bbb.Api.{
  new, set_status, read_data, write_data, try_write_data_all, reset, control_in,
}
use usbd_storage.Transport.Bbb.Invariant.{Inv, InState}
use usbd_storage.Transport.Bbb.StatusSafety.{Safe}
use usbd_storage.Transport.Bbb.PollSafety.{enter_command-Inv, poll-Safe}
use usbd_storage.Transport.Bbb.ApiSafety.{
  AwaitsStatus, set_status-sets, write_data-appends, read_data-takes,
}
use usbd_storage.Transport.Bbb.TryWrite.{try_write_all, try_write_exceeds, try_write_overflows}

module _ {World Endpoint UsbError : Type 0} (stack : UsbStack World Endpoint UsbError) where
  -- One call, from its state to the state that it leaves, errors included. A write or a read stands in
  -- the state that it is meant for; in any other it changes nothing.
  pub data Step : BulkOnly World Endpoint → BulkOnly World Endpoint → Type 0 where
    polled : (t t' : BulkOnly World Endpoint) → (poll stack t).1 ≡ t' → Step t t'
    bus_reset : (t t' : BulkOnly World Endpoint) → reset stack t ≡ t' → Step t t'
    control :
        (t t' : BulkOnly World Endpoint) (req : ControlRequest)
        → control_in stack req t ≡ t'
        → Step t t'
    status_set :
        (t t' : BulkOnly World Endpoint) (status : CommandStatus) (n : ℕ)
        → AwaitsStatus stack t
        → (set_status stack status n t).1 ≡ t'
        → Step t t'
    wrote :
        (t t' : BulkOnly World Endpoint) (src : List ℕ)
        → t.state ≡ data_transfer_to_host
        → (write_data stack src t).1 ≡ t'
        → Step t t'
    wrote_all :
        (t t' : BulkOnly World Endpoint) (src : List ℕ)
        → t.state ≡ data_transfer_to_host
        → (try_write_data_all stack src t).1 ≡ t'
        → Step t t'
    was_read :
        (t t' : BulkOnly World Endpoint) (dst : List ℕ)
        → (t.state ≡ data_transfer_from_host) ⊎ (t.state ≡ data_transfer_from_host_status_await)
        → (read_data stack dst t).1 ≡ t'
        → Step t t'

  pub data Reach (t : BulkOnly World Endpoint) : BulkOnly World Endpoint → Type 0 where
    here : Reach t t
    next : {u w : BulkOnly World Endpoint} → Reach t u → Step u w → Reach t w

  if-Inv :
      (b : Bool) (t u : BulkOnly World Endpoint)
      → Inv stack t
      → Inv stack u
      → Inv stack (if b then t else u)
  if-Inv true t u v w = v
  if-Inv false t u v w = w

  -- No state says anything of the bus.
  on_other_bus :
      (x : State) (t : BulkOnly World Endpoint) (w : World)
      → InState x t
      → InState x (record t { bus = w })
  on_other_bus command_transfer t w i = i
  on_other_bus command_transfer_invalid t w i = i
  on_other_bus data_transfer_no_data t w i = i
  on_other_bus status_transfer t w i = i
  on_other_bus data_transfer_to_host t w i = i
  on_other_bus data_transfer_to_host_ending t w i = i
  on_other_bus data_transfer_from_host t w i = i
  on_other_bus data_transfer_from_host_status_await t w i = i
  on_other_bus data_transfer_from_host_ending t w i = i
  on_other_bus data_transfer_status_await t w i = i

  pub reset-Inv : (t : BulkOnly World Endpoint) → Inv stack t → Inv stack (reset stack t)
  unfolding reset
  reset-Inv t v = enter_command-Inv stack t v.base

  -- Every control request keeps the invariant: the reset, the question for the LUN, and any other.
  pub control_in-Inv :
      (req : ControlRequest) (t : BulkOnly World Endpoint)
      → Inv stack t
      → Inv stack (control_in stack req t)
  unfolding control_in packet_size
  control_in-Inv req t v = if-Inv (not (req.is_class && req.is_interface)) t _ v (
      if-Inv (req.request == 0xFF) _ _ (enter_command-Inv stack t v.base) (
        if-Inv (req.request == 0xFE) _ t
          (record {
            base = record {
              buffer = v.base.buffer;
              cbw_fits = v.base.cbw_fits;
              packet_fits = v.base.packet_fits;
              small = v.base.small;
              block_fits = v.base.block_fits;
              block_some = v.base.block_some;
            };
            in_state = on_other_bus t.state t _ v.in_state;
          })
          v))

  -- What `new` builds.
  abbrev pub fresh : Endpoint → Endpoint → World → ℕ → List ℕ → BulkOnly World Endpoint
  fresh in_ep out_ep w max_lun bytes = record {
    in_ep = in_ep;
    out_ep = out_ep;
    buf = record { inner = bytes; rpos = 0; wpos = 0 };
    state = command_transfer;
    cbw = default_cbw;
    cs = none;
    max_lun = max_lun;
    left_to_transfer = 0;
    bus = w;
  }

  module _ (law : IsLawful stack) where
    -- On a lawful stack, a LUN of at most 15, a buffer that holds a CBW and a packet and has fewer
    -- than 2 ^ 32 bytes, and two endpoints that are allocated: `new` returns the transport with
    -- these, in the invariant.
    pub new-Inv :
        (packet_size max_lun : ℕ) (bytes : List ℕ) (w w₁ w₂ : World) (in_ep out_ep : Endpoint)
        → max_lun ≤ 15
        → 31 ≤ length bytes
        → packet_size ≤ length bytes
        → length bytes < 2 ^ 32
        → stack.bulk packet_size w ≡ some (in_ep, w₁)
        → stack.bulk packet_size w₁ ≡ some (out_ep, w₂)
        → (new stack packet_size max_lun bytes w ≡ (done (fresh in_ep out_ep w₂ max_lun bytes), w₂))
          × Inv stack (fresh in_ep out_ep w₂ max_lun bytes)
    unfolding new Buffer.new packet_size
    new-Inv packet_size max_lun bytes w w₁ w₂ in_ep out_ep hl hc hp hs h₁ h₂ = (
      ground (arith, h₁, h₂),
      record {
        base = record {
          buffer = omega arith;
          cbw_fits = hc;
          packet_fits = omega (arith, law.bulk_size packet_size w w₁ in_ep h₁);
          small = hs;
          block_fits = omega arith;
          block_some = λ c. absurd c;
        };
        in_state = (refl, refl);
      },
    )

    pub Safe-Inv :
        {A : Type 0} (r : Outcome A (Unit {0}) × BulkOnly World Endpoint)
        → Ensures r (λ _ t'. Inv stack t') (Inv stack)
        → Inv stack r.1
    Safe-Inv (done a, t) h = h
    Safe-Inv (fail e, t) h = h
    Safe-Inv (panic, t) h = absurd h
    Safe-Inv (out_of_fuel, t) h = absurd h

    wrote_all-Inv :
        (t : BulkOnly World Endpoint) (src : List ℕ)
        → t.state ≡ data_transfer_to_host
        → Inv stack t
        → Inv stack (try_write_data_all stack src t).1
    wrote_all-Inv t src h v =
        let left = t.left_to_transfer - length (contents t.buf) in
        let room = capacity t.buf - length (contents t.buf) in
        elim (Bool-cases (ltb left (length src))) [
          | inl more ↦
              subst (λ r. Inv stack r.1) (sym (try_write_exceeds stack t v src h (ltb→lt _ _ more)))
                v
          | inr fits ↦ elim (Bool-cases (ltb room (length src))) [
            | inl over ↦
                (let (b, run, kept, inv) =
                    try_write_overflows stack t v src h (not_ltb→le _ _ fits) (ltb→lt _ _ over) in
                  subst (λ r. Inv stack r.1) (sym run) inv)
            | inr enough ↦
                (let (b, run, added, inv) =
                    try_write_all stack t v src h (not_ltb→le _ _ fits) (not_ltb→le _ _ enough) in
                  subst (λ r. Inv stack r.1) (sym run) inv)
          ]
        ]

    Step-Inv : {t t' : BulkOnly World Endpoint} → Step t t' → Inv stack t → Inv stack t'
    Step-Inv (polled t t' e) v =
        subst (Inv stack) e (Safe-Inv (poll stack t) (poll-Safe stack law t v))
    Step-Inv (bus_reset t t' e) v = subst (Inv stack) e (reset-Inv t v)
    Step-Inv (control t t' req e) v = subst (Inv stack) e (control_in-Inv req t v)
    Step-Inv (status_set t t' status n h e) v =
        let (run, inv) = set_status-sets stack t v status n h in
        subst (Inv stack) (sym (ap (λ r. r.1) run) ∙ e) inv
    Step-Inv (wrote t t' src h e) v =
        let (b, run, added, inv) = write_data-appends stack t v src h in
        subst (Inv stack) (sym (ap (λ r. r.1) run) ∙ e) inv
    Step-Inv (wrote_all t t' src h e) v = subst (Inv stack) e (wrote_all-Inv t src h v)
    Step-Inv (was_read t t' dst h e) v =
        let (b, run, rest, inv) = read_data-takes stack t v dst h in
        subst (Inv stack) (sym (ap (λ r. r.1) run) ∙ e) inv

    -- On a lawful stack, from a transport in the invariant, after any finite sequence of polls,
    -- bus resets, control requests, status settings, writes and reads, in which a status is set
    -- and data are written or read only in the states meant for it, the invariant holds, and the
    -- next poll returns, normally or by an error, in a state of the invariant again.
    pub reach_poll-Safe :
        (t u : BulkOnly World Endpoint)
        → Inv stack t
        → Reach t u
        → Inv stack u × Safe stack (poll stack) u
    reach_poll-Safe t u v r = (keep r v, poll-Safe stack law u (keep r v))
      where
        keep : {a b : BulkOnly World Endpoint} → Reach a b → Inv stack a → Inv stack b
        keep here v = v
        keep (next r s) v = Step-Inv s (keep r v)
