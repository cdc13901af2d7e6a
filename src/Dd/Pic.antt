-- ===== src/Dd/Pic.antt =====
-- fckrnl/dd/pic/pic.c and pic.h: the two legacy interrupt controllers.
pub mod Ports
use fusioncore.Base.{ℕ, ◌+◌, ◌-◌, ◌^◌, bit_and, bit_or, leb, ltb, if◌then◌else◌, u8}
use fusioncore.Asm.{Device, Io, pure, ◌>>=◌, ◌>>◌, io_outb, io_inb, io_wait}

-- `PIC1` and `PIC2`, and the ports made from them. The source makes those of the second
-- controller from `PIC1`.
abbrev pub pic1 : ℕ
pic1 = 0x20

abbrev pub pic2 : ℕ
pic2 = 0xa0

abbrev pub pic1_command : ℕ
pic1_command = pic1

abbrev pub pic1_data : ℕ
pic1_data = pic1 + 1

abbrev pub pic2_command : ℕ
pic2_command = pic1

abbrev pub pic2_data : ℕ
pic2_data = pic1 + 1

abbrev pub icw4_8086 : ℕ
icw4_8086 = 1

unfoldable pub pic_disable : Io (Unit {0})
pic_disable = do io_outb pic2_data 0xff; io_outb pic1_data 0xff

-- The port of a line, and the line's number at its controller.
abbrev pub mask_port : ℕ → ℕ
mask_port irq_line = if ltb irq_line 8 then pic1_data else pic2_data

abbrev pub mask_line : ℕ → ℕ
mask_line irq_line = if ltb irq_line 8 then irq_line else irq_line - 8

unfoldable pub pic_signal_eoi : ℕ → Io (Unit {0})
pic_signal_eoi isr_number = do
  (if leb 40 isr_number then io_outb pic2_command 0x20 else pure tt)
  io_outb pic1_command 0x20

module _ (dev : Device) where
  unfoldable pub pic_remap : Io (Unit {0})
  pic_remap = do
    mask1 ← io_inb dev pic1_data
    mask2 ← io_inb dev pic2_data
    io_outb pic1_command 0x11
    io_outb pic2_command 0x11
    io_wait dev
    io_outb pic1_data 0x20
    io_outb pic2_data 0x28
    io_wait dev
    io_outb pic1_data 0x04
    io_outb pic2_data 0x02
    io_wait dev
    io_outb pic1_data 0x01
    io_outb pic2_data 0x01
    io_wait dev
    io_outb pic1_data 0x00
    io_outb pic2_data 0x00
    io_wait dev
    io_outb pic1_data icw4_8086
    io_wait dev
    io_outb pic2_data icw4_8086
    io_wait dev
    io_outb pic1_data mask1
    io_outb pic2_data mask2

  unfoldable pub pic_set_mask : ℕ → Io (Unit {0})
  pic_set_mask irq_line = do
    old ← io_inb dev (mask_port irq_line)
    io_outb (mask_port irq_line) (bit_or old (2 ^ mask_line irq_line))

  -- `~(1 << irq_line)` on 32 bits; the line is below 248.
  unfoldable pub pic_clear_mask : ℕ → Io (Unit {0})
  pic_clear_mask irq_line = do
    old ← io_inb dev (mask_port irq_line)
    io_outb (mask_port irq_line) (bit_and old (2 ^ 32 - 1 - 2 ^ mask_line irq_line))
