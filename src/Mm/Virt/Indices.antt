-- ===== src/Mm/Virt/Indices.antt =====
-- How an address is taken apart into the indices of the four tables.
use fusioncore.Base.{
  ℕ, ◌+◌, ◌-◌, ◌*◌, ◌/◌, ◌%◌, ◌^◌, ◌<◌, bit_and, bit_or, ◌≡◌, sym, ap, ◌∙◌, arith,
}
use fusioncore.Base.Bits.{bit_and_high, bit_and_mask, bit_or_fields}
use native.Mathlib.Nat.{div-add-mod', mod-lt, mul-div_cancel, one-le-pow}
use fusioncore.Mm.Memmap.{page_size}
use fusioncore.Mm.Virt.{index_at, table_of}

-- An index is nine bits of the address.
pub index_at_lem : (k a : ℕ) → index_at k a ≡ a / 2 ^ k % 512
index_at_lem k a =
    ap (λ (t : ℕ). bit_and t (0x1ff * 2 ^ k) / 2 ^ k) (sym (div-add-mod' a (2 ^ k)))
    ∙ ap (λ (t : ℕ). t / 2 ^ k) (bit_and_high k (a / 2 ^ k) (a % 2 ^ k) 0x1ff (mod-lt a pos))
    ∙ mul-div_cancel (bit_and (a / 2 ^ k) 0x1ff) pos
    ∙ bit_and_mask 9 (a / 2 ^ k)
  where
    pos : 0 < 2 ^ k
    pos = one-le-pow k 2 (omega arith)

-- The four table indices of an address and its offset in the page make up its low 48 bits.
pub index_at-recompose :
    (a : ℕ)
    → index_at 39 a * 2 ^ 39
        + index_at 30 a * 2 ^ 30
        + index_at 21 a * 2 ^ 21
        + index_at 12 a * 2 ^ 12
        + a % page_size
      ≡ a % 2 ^ 48
index_at-recompose a =
    omega (arith, index_at_lem 39 a, index_at_lem 30 a, index_at_lem 21 a, index_at_lem 12 a)

-- `& ~511` leaves the address of a page-aligned table, with any flags below bit 9 cut off.
pub table_of_lem :
    (page flags : ℕ)
    → page % page_size ≡ 0
    → page < 2 ^ 64
    → flags < 512
    → table_of (bit_or page flags) ≡ page
table_of_lem page flags aligned small flags_small =
    ap table_of
      (ap (λ (t : ℕ). bit_or t flags) as_field ∙ bit_or_fields 9 (page / 512) flags flags_small)
    ∙ bit_and_high 9 (page / 512) flags (2 ^ 55 - 1) flags_small
    ∙ ap (λ (t : ℕ). t * 512) (bit_and_mask 55 (page / 512))
    ∙ back
  where
    as_field : page ≡ page / 512 * 2 ^ 9
    as_field = omega arith

    back : page / 512 % 2 ^ 55 * 512 ≡ page
    back = omega arith

-- Flags of an entry that leads to a table: with the present bit, and without bit 7.
abbrev pub Leading : ℕ → Type 0
Leading flags = (flags % 2 ≡ 1) × (flags % 256 < 128)

-- Bit 7 of an entry is that of its flags.
pub size_bit :
    (page flags : ℕ)
    → page % page_size ≡ 0
    → flags < 512
    → bit_and (bit_or page flags) 0x80 ≡ flags / 128 % 2 * 128
size_bit page flags aligned flags_small =
    let w = page / 512 * 2 ^ 9 + flags in
    ap (λ (t : ℕ). bit_and t 0x80)
      (ap (λ (t : ℕ). bit_or t flags) as_field
        ∙ bit_or_fields 9 (page / 512) flags flags_small
        ∙ sym (div-add-mod' w (2 ^ 7)))
    ∙ bit_and_high 7 (w / 2 ^ 7) (w % 2 ^ 7) 1 (mod-lt w (omega arith))
    ∙ ap (λ (t : ℕ). t * 2 ^ 7) (bit_and_mask 1 (w / 2 ^ 7))
    ∙ omega arith
  where
    as_field : page ≡ page / 512 * 2 ^ 9
    as_field = omega arith

-- The present bit of an entry is that of its flags.
pub present_bit :
    (page flags : ℕ)
    → page % page_size ≡ 0
    → flags < 512
    → bit_and (bit_or page flags) 1 ≡ flags % 2
present_bit page flags aligned flags_small =
    ap (λ (t : ℕ). bit_and t 1)
      (ap (λ (t : ℕ). bit_or t flags) as_field ∙ bit_or_fields 9 (page / 512) flags flags_small)
    ∙ bit_and_mask 1 (page / 512 * 2 ^ 9 + flags)
    ∙ back
  where
    as_field : page ≡ page / 512 * 2 ^ 9
    as_field = omega arith

    back : (page / 512 * 2 ^ 9 + flags) % 2 ^ 1 ≡ flags % 2
    back = omega arith
