-- ===== src/Cpu/Gdt.antt =====
-- fckrnl/cpu/gdt.c and gdt.h: the segment descriptors and the task state segment.
use fusioncore.Base.{ℕ, ◌+◌, ◌-◌, List, [], ◌∷◌, u64}

-- `gdt_desc_t`
pub record GdtDesc : Type 0 where
  pub limit_lo : ℕ
  pub base_lo : ℕ
  pub base_mid : ℕ
  pub access : ℕ
  pub flags : ℕ
  pub base_hi : ℕ

-- `tss_desc_t`
pub record TssDesc : Type 0 where
  pub length : ℕ
  pub base_lo : ℕ
  pub base_mid : ℕ
  pub flags1 : ℕ
  pub flags2 : ℕ
  pub base_hi : ℕ
  pub base_upper : ℕ
  pub reserved : ℕ

-- `gdt_t`, entries 0 to 4 by the names that gdt.h gives their indices.
pub record Gdt : Type 0 where
  pub null_descriptor : GdtDesc
  pub kernel_code : GdtDesc
  pub kernel_data : GdtDesc
  pub user_data : GdtDesc
  pub user_code : GdtDesc
  pub tss_descriptor : TssDesc

-- The fields of `tss_t` that are not left 0.
pub record Tss : Type 0 where
  pub rsp : List ℕ
  pub iopb_offset : ℕ

-- `gdt_ptr_t`
pub record GdtPtr : Type 0 where
  pub limit : ℕ
  pub base : ℕ

-- The sizes of the packed structures.
abbrev pub sizeof_gdt_desc : ℕ
sizeof_gdt_desc = 8

abbrev pub sizeof_tss_desc : ℕ
sizeof_tss_desc = 16

abbrev pub sizeof_tss : ℕ
sizeof_tss = 104

abbrev pub sizeof_gdt : ℕ
sizeof_gdt =
    sizeof_gdt_desc + sizeof_gdt_desc + sizeof_gdt_desc + sizeof_gdt_desc + sizeof_gdt_desc
    + sizeof_tss_desc

abbrev pub segment : ℕ → ℕ → GdtDesc
segment access flags = record {
  limit_lo = 0;
  base_lo = 0;
  base_mid = 0;
  access = access;
  flags = flags;
  base_hi = 0;
}

unfoldable pub gdt : Gdt
gdt = record {
  null_descriptor = segment 0 0;
  kernel_code = segment 0b10011010 0b00100000;
  kernel_data = segment 0b10010010 0;
  user_data = segment 0b11110010 0;
  user_code = segment 0b11111010 0b00100000;
  tss_descriptor = record {
    length = 104;
    base_lo = 0;
    base_mid = 0;
    flags1 = 0b10001001;
    flags2 = 0;
    base_hi = 0;
    base_upper = 0;
    reserved = 0;
  };
}

-- `gdt_init` with the addresses of `stack` and `gdt`: the tables, and what is loaded.
unfoldable pub gdt_init : ℕ → ℕ → Gdt × Tss × GdtPtr
unfolding gdt
gdt_init stack gdt_addr = (
  gdt,
  record { rsp = u64 (stack + 16384) ∷ 0 ∷ 0 ∷ []; iopb_offset = sizeof_tss },
  record { limit = sizeof_gdt - 1; base = gdt_addr },
)
