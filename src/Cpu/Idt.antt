-- ===== src/Cpu/Idt.antt =====
-- fckrnl/cpu/idt.c and idt.h: the interrupt descriptors.
pub mod Gates
use fusioncore.Base.{ℕ, zero, suc, ◌+◌, ◌-◌, ◌*◌, ◌/◌, ◌^◌, bit_and, List, set, u16, u32, u8}

-- `idt_desc_t`
pub record IdtDesc : Type 0 where
  pub offset_lo : ℕ
  pub selector : ℕ
  pub ist : ℕ
  pub type_attribs : ℕ
  pub offset_mid : ℕ
  pub offset_hi : ℕ
  pub zero_field : ℕ

-- `idt_ptr_t`
pub record IdtPtr : Type 0 where
  pub limit : ℕ
  pub base : ℕ

-- `INT_GATE`
abbrev pub int_gate : ℕ
int_gate = 0x8e

abbrev pub sizeof_idt : ℕ
sizeof_idt = 16 * 256

unfoldable pub idt_descriptor : ℕ → ℕ → IdtDesc
idt_descriptor offset type_attribs = record {
  offset_lo = u16 (bit_and offset 0xffff);
  selector = 0x08;
  ist = 0;
  type_attribs = type_attribs;
  offset_mid = u16 (bit_and (offset / 2 ^ 16) 0xffff);
  offset_hi = u32 (bit_and (offset / 2 ^ 32) 0xffff_ffff);
  zero_field = 0;
}

-- `_isr_vector` gives the handlers' addresses; the table is `idt`.
module _ (isr_vector : ℕ → ℕ) where
  unfoldable pub idt_create_descriptor : ℕ → ℕ → List IdtDesc → List IdtDesc
  unfolding idt_descriptor
  idt_create_descriptor index type_attribs idt =
      set idt (u8 index) (idt_descriptor (isr_vector (u8 index)) type_attribs)

  -- One of the loops of `idt_init`, `for (; i < end; i++)`, with `left` rounds to go.
  unfoldable pub fill_gates : ℕ → ℕ → List IdtDesc → List IdtDesc
  unfolding idt_create_descriptor
  fill_gates zero i idt = idt
  fill_gates (suc left) i idt = fill_gates left (i + 1) (idt_create_descriptor i int_gate idt)

  -- `idt_init` with the address of `idt`: the table, and what is loaded. Between the first two
  -- loops the source calls `pic_remap`, which is `Dd.Pic.pic_remap`.
  unfoldable pub idt_init : ℕ → List IdtDesc → List IdtDesc × IdtPtr
  unfolding fill_gates
  idt_init idt_addr idt = (
    fill_gates 208 48 (fill_gates 16 32 (fill_gates 32 0 idt)),
    record { limit = sizeof_idt - 1; base = idt_addr },
  )
