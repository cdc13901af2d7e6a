-- ===== src/Cpu/Idt/Gates.antt =====
-- What the interrupt descriptors hold.
use fusioncore.Base.{
  bit_and, u16, u32, ◌%◌, ℕ, zero, suc, ◌+◌, ◌*◌, ◌/◌, ◌^◌, ◌≤◌, ◌<◌, ◌≡◌, refl, ◌∙◌, List, arith,
  length, get_or, set, length-set, get_or-set_self, get_or-set_ne, ltb, tests, Bool-cases, inl, inr,
  u8, eq_or_lt, subst,
}
use fusioncore.Base.Bits.{bit_and_mask}
use fusioncore.Cpu.Idt.{
  IdtDesc, int_gate, idt_descriptor, idt_create_descriptor, fill_gates, idt_init,
}

-- The address that a descriptor stands for, from its three parts.
abbrev pub handler_of : IdtDesc → ℕ
handler_of d = d.offset_lo + d.offset_mid * 2 ^ 16 + d.offset_hi * 2 ^ 32

-- A descriptor holds every bit of a 64-bit address.
pub idt_descriptor-handler :
    (offset kind : ℕ) → offset < 2 ^ 64 → handler_of (idt_descriptor offset kind) ≡ offset
unfolding idt_descriptor
idt_descriptor-handler offset kind small = omega (
  arith,
  bit_and_mask 16 offset,
  bit_and_mask 16 (offset / 2 ^ 16),
  bit_and_mask 32 (offset / 2 ^ 32),
)

module _ (isr_vector : ℕ → ℕ) where
  abbrev made : ℕ → IdtDesc
  made j = idt_descriptor (isr_vector j) int_gate

  -- A present 64-bit interrupt gate of privilege level 0 to the handler of a vector, in the kernel's
  -- code segment: the bits of the handler's address, and 0x8e.
  abbrev pub gate : ℕ → IdtDesc
  gate j = record {
    offset_lo = isr_vector j % 2 ^ 16;
    selector = 8;
    ist = 0;
    type_attribs = 0x8e;
    offset_mid = isr_vector j / 2 ^ 16 % 2 ^ 16;
    offset_hi = isr_vector j / 2 ^ 32 % 2 ^ 32;
    zero_field = 0;
  }

  made-gate : (j : ℕ) → made j ≡ gate j
  unfolding idt_descriptor
  made-gate j =
      let a = isr_vector j in
      let lo : u16 (bit_and a 0xffff) ≡ a % 2 ^ 16 = omega (arith, bit_and_mask 16 a) in
      let mid : u16 (bit_and (a / 2 ^ 16) 0xffff) ≡ a / 2 ^ 16 % 2 ^ 16 =
        omega (arith, bit_and_mask 16 (a / 2 ^ 16)) in
      let hi : u32 (bit_and (a / 2 ^ 32) 0xffff_ffff) ≡ a / 2 ^ 32 % 2 ^ 32 =
        omega (arith, bit_and_mask 32 (a / 2 ^ 32)) in
      λ i. record {
        offset_lo = lo i;
        selector = 8;
        ist = 0;
        type_attribs = 0x8e;
        offset_mid = mid i;
        offset_hi = hi i;
        zero_field = 0;
      }

  length-fill_gates :
      (left i : ℕ) (idt : List IdtDesc) → length (fill_gates isr_vector left i idt) ≡ length idt
  unfolding fill_gates idt_create_descriptor
  length-fill_gates zero i idt = refl
  length-fill_gates (suc left) i idt =
      length-fill_gates left (i + 1) (idt_create_descriptor isr_vector i int_gate idt)
      ∙ length-set idt (u8 i) (made (u8 i))

  fill_gates-before :
      (left i : ℕ) (idt : List IdtDesc) (d : IdtDesc) (j : ℕ)
      → i + left ≤ 256
      → j < i
      → get_or (fill_gates isr_vector left i idt) j d ≡ get_or idt j d
  unfolding fill_gates idt_create_descriptor
  fill_gates-before zero i idt d j room before = refl
  fill_gates-before (suc left) i idt d j room before =
      fill_gates-before left (i + 1) (idt_create_descriptor isr_vector i int_gate idt) d j
        (omega arith) (omega arith)
      ∙ get_or-set_ne idt (u8 i) j (made (u8 i)) d (λ e. omega arith)

  fill_gates-inside :
      (left i : ℕ) (idt : List IdtDesc) (d : IdtDesc) (j : ℕ)
      → i + left ≤ 256
      → length idt ≡ 256
      → i ≤ j
      → j < i + left
      → get_or (fill_gates isr_vector left i idt) j d ≡ made j
  unfolding fill_gates idt_create_descriptor
  fill_gates-inside zero i idt d j room size lo hi = absurd (omega arith)
  fill_gates-inside (suc left) i idt d j room size lo hi = elim (eq_or_lt i j lo) [
    | inl here ↦
        fill_gates-before left (i + 1) (idt_create_descriptor isr_vector i int_gate idt) d j
          (omega arith) (omega arith)
        ∙ subst (λ k. get_or (set idt k (made k)) j d ≡ made j) (omega arith)
            (get_or-set_self idt j (made j) d (omega arith))
    | inr later ↦
        fill_gates-inside left (i + 1) (idt_create_descriptor isr_vector i int_gate idt) d j
          (omega arith) (length-set idt (u8 i) (made (u8 i)) ∙ size) (omega arith) (omega arith)
  ]

  -- In a table of 256 descriptors idt_init gives each vector, whatever the table held, the present
  -- 64-bit interrupt gate of privilege level 0 in the kernel's code segment whose three parts are
  -- the bits of its own handler's address, and loads a limit that takes in exactly the table.
  pub idt_init-gates :
      (idt_addr : ℕ) (idt : List IdtDesc) (d : IdtDesc) (j : ℕ)
      → length idt ≡ 256
      → j < 256
      → (get_or (idt_init isr_vector idt_addr idt).0 j d ≡ gate j)
        × ((idt_init isr_vector idt_addr idt).1.limit + 1 ≡ 16 * length idt)
  unfolding idt_init
  idt_init-gates idt_addr idt d j size small =
      let exceptions_set = fill_gates isr_vector 32 0 idt in
      let isa_set = fill_gates isr_vector 16 32 exceptions_set in
      let size1 = length-fill_gates 32 0 idt ∙ size in
      let size2 = length-fill_gates 16 32 exceptions_set ∙ size1 in
      (
        (elim (Bool-cases (ltb j 48)) [
          | inl low ↦
              fill_gates-before 208 48 isa_set d j (omega arith) (grind tests)
              ∙ elim (Bool-cases (ltb j 32)) [
                | inl lower ↦
                    fill_gates-before 16 32 exceptions_set d j (omega arith) (grind tests)
                    ∙ fill_gates-inside 32 0 idt d j (omega arith) size (omega arith) (grind tests)
                | inr isa ↦
                    fill_gates-inside 16 32 exceptions_set d j (omega arith) size1 (ground arith)
                      (ground arith)
              ]
          | inr high ↦
              fill_gates-inside 208 48 isa_set d j (omega arith) size2 (ground arith) (omega arith)
        ])
            ∙ made-gate j,
        omega arith,
      )
