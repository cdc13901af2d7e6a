-- ===== src/Cpu/Features.antt =====
-- fckrnl/cpu/cpu.h: reading the processor's features. The instruction is a parameter: from a leaf
-- and a subleaf it gives the registers eax, ebx, ecx and edx.
use fusioncore.Base.{ℕ, ◌^◌, bit_and, Bool, not, ltb, ◌==◌, if◌then◌else◌}

-- `cpuid_reg_t`
pub record CpuidReg : Type 0 where
  pub leaf : ℕ
  pub subleaf : ℕ
  pub eax : ℕ
  pub ebx : ℕ
  pub ecx : ℕ
  pub edx : ℕ

abbrev pub cpuid_get_features : ℕ
cpuid_get_features = 1

abbrev pub cpuid_feat_edx_apic : ℕ
cpuid_feat_edx_apic = 2 ^ 9

pub record Registers : Type 0 where
  pub eax : ℕ
  pub ebx : ℕ
  pub ecx : ℕ
  pub edx : ℕ

module _ (instruction : ℕ → ℕ → Registers) where
  -- The first call asks for the highest leaf; it sets no subleaf.
  unfoldable pub cpuid : CpuidReg → ℕ × CpuidReg
  cpuid reg =
      let max = (instruction (bit_and reg.leaf 0x8000_0000) 0).eax in
      let out = instruction reg.leaf reg.subleaf in
      if ltb max reg.leaf
      then (0, reg)
      else (1, record reg { eax = out.eax; ebx = out.ebx; ecx = out.ecx; edx = out.edx })

  -- `apic_is_avail` of fckrnl/dd/apic/apic.c.
  unfoldable pub apic_is_avail : Bool
  unfolding cpuid
  apic_is_avail =
      let regs =
        (cpuid (record {
          leaf = cpuid_get_features;
          subleaf = 0;
          eax = 0;
          ebx = 0;
          ecx = 0;
          edx = 0;
        })).1 in
      not (bit_and regs.edx cpuid_feat_edx_apic == 0)
