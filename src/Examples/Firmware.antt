-- ===== src/Examples/Firmware.antt =====
-- The firmware of examples: what the three programs have word for word in common. The line numbers of the
-- map are those of examples/stm32/src/bin/stm32f411x_scsi_bbb.rs. A `usize` of the boards has 32 bits.
use usbd_storage.Prelude.{ℕ, ◌+◌, ◌*◌, ◌^◌, Option, none, some, List, length, ltb, if◌then◌else◌}
use usbd_storage.Prelude.Outcome.{Outcome, done, panic}
use usbd_storage.Prelude.Proc.{◌>>=◌, ◌>>◌, get, lift, modify}
use usbd_storage.Transport.{UsbStack}
use usbd_storage.Subclass.{WithClass, on_class}
use usbd_storage.Subclass.Command.{try_write_data_all, pass, fail}

pub record State : Type 0 where
  pub storage_offset : ℕ
  pub sense_key : Option ℕ
  pub sense_key_code : Option ℕ
  pub sense_qualifier : Option ℕ

abbrev pub default_state : State
default_state = record {
  storage_offset = 0;
  sense_key = none;
  sense_key_code = none;
  sense_qualifier = none;
}

unfoldable pub reset : State → State
reset state = record state {
  storage_offset = 0;
  sense_key = none;
  sense_key_code = none;
  sense_qualifier = none;
}

-- `o.unwrap_or(default)`
abbrev pub unwrap_or : Option ℕ → ℕ → ℕ
unwrap_or none default = default
unwrap_or (some n) default = n

module _ {E : Type 0} where
  -- `a * b` and `a + b` on 32 bits: an overflow panics.
  unfoldable pub mul : ℕ → ℕ → Outcome E ℕ
  mul a b = if ltb (a * b) (2 ^ 32) then done (a * b) else panic

  unfoldable pub add : ℕ → ℕ → Outcome E ℕ
  add a b = if ltb (a + b) (2 ^ 32) then done (a + b) else panic

-- What the static variables hold: `STATE`, and the memory that the commands read and write.
pub record Globals (Memory : Type 0) : Type 0 where
  pub state : State
  pub memory : Memory

module _ {World Endpoint UsbError : Type 0} (stack : UsbStack World Endpoint UsbError) where
  abbrev pub Program : Type 0 → Type 0 → Type 0
  Program Memory A = WithClass stack (Globals Memory) A

module _ {World Endpoint UsbError : Type 0} (stack : UsbStack World Endpoint UsbError)
    {Memory : Type 0} where
  abbrev pub modify_state : (State → State) → Program stack Memory (Unit {0})
  modify_state h = modify λ f. (record f.0 { state = h f.0.state }, f.1)

  -- `command.try_write_data_all(&data)?; command.pass(data.len() as u32);`
  unfoldable pub answer : List ℕ → Program stack Memory (Unit {0})
  answer bytes = do
    on_class stack (try_write_data_all stack bytes)
    on_class stack (pass stack (length bytes))

  -- The `RequestSense` arm, for the data that it makes of the state.
  unfoldable pub request_sense : (State → List ℕ) → Program stack Memory (Unit {0})
  request_sense sense_data = do
    f ← get
    let bytes = sense_data f.0.state
    on_class stack (try_write_data_all stack bytes)
    modify_state reset
    on_class stack (pass stack (length bytes))

  -- `state.storage_offset += count;`
  unfoldable pub advance : ℕ → Program stack Memory (Unit {0})
  advance count = do
    f ← get
    offset ← lift (add f.0.state.storage_offset count)
    modify_state λ s. record s { storage_offset = offset }

  -- `command.pass(state.storage_offset as u32); state.storage_offset = 0;`
  unfoldable pub complete : Program stack Memory (Unit {0})
  complete = do
    f ← get
    on_class stack (pass stack f.0.state.storage_offset)
    modify_state λ s. record s { storage_offset = 0 }

  -- The arm of a command that the firmware does not know: an illegal request, with the invalid
  -- operation code as its reason.
  unfoldable pub unknown_command : Program stack Memory (Unit {0})
  unknown_command = do
    modify_state λ s. record s {
      sense_key = some 0x05;
      sense_key_code = some 0x20;
      sense_qualifier = some 0x00;
    }
    on_class stack (fail stack 0)
