-- ===== src/Dd/Com.antt =====
-- fckrnl/dd/com/com.c: a serial port.
pub mod Sent
pub mod Received
use fusioncore.Base.{ℕ, zero, suc, ◌+◌, bit_and, Bool, not, List, [], ◌∷◌, ◌==◌, if◌then◌else◌}
use fusioncore.Asm.{Device, Io, spinning, pure, ◌>>=◌, ◌>>◌, io_outb, io_inb}

-- `COM1` to `COM4`
abbrev pub com1 : ℕ
com1 = 0x3f8

abbrev pub com2 : ℕ
com2 = 0x2f8

abbrev pub com3 : ℕ
com3 = 0x3e8

abbrev pub com4 : ℕ
com4 = 0x2e8

unfoldable pub com_init : ℕ → Io (Unit {0})
com_init port = do
  io_outb (port + 1) 0x00
  io_outb (port + 3) 0x80
  io_outb (port + 0) 0x03
  io_outb (port + 1) 0x00
  io_outb (port + 3) 0x03
  io_outb (port + 2) 0xc7
  io_outb (port + 4) 0x0b

module _ (dev : Device) where
  unfoldable pub com_is_transmit_empty : ℕ → Io Bool
  com_is_transmit_empty port = do
    status ← io_inb dev (port + 5)
    pure (not (bit_and status 0x20 == 0))

  unfoldable pub com_is_received : ℕ → Io Bool
  com_is_received port = do status ← io_inb dev (port + 5); pure (not (bit_and status 1 == 0))

  -- `while (!com_is_transmit_empty(port)) ;` and then the byte.
  unfoldable pub com_send_char : ℕ → ℕ → ℕ → Io (Unit {0})
  unfolding com_is_transmit_empty
  com_send_char zero port c = λ _. spinning
  com_send_char (suc fuel) port c = do
    ready ← com_is_transmit_empty port
    if ready then io_outb port c else com_send_char fuel port c

  -- The string's characters, without the 0 that ends it.
  unfoldable pub com_send_string : ℕ → ℕ → List ℕ → Io (Unit {0})
  unfolding com_send_char
  com_send_string fuel port [] = pure tt
  com_send_string fuel port (c ∷ str) = do com_send_char fuel port c; com_send_string fuel port str

  unfoldable pub com_recv : ℕ → ℕ → Io ℕ
  unfolding com_is_received
  com_recv zero port = λ _. spinning
  com_recv (suc fuel) port = do
    received ← com_is_received port
    if received then io_inb dev port else com_recv fuel port
