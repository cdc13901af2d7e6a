-- ===== src/Mm/Virt/Walk.antt =====
-- What the processor finds in the page tables after a page is mapped.
use fusioncore.Base.{
  ℕ, ◌+◌, ◌^◌, ◌≤◌, ◌<◌, bit_and, bit_or, ◌≡◌, refl, ap, ◌∙◌, ◌⊎◌, Bool, true, false, not, ◌&&◌,
  Option, none, some, arith, ◌==◌, if◌then◌else◌, if-true,
}
use fusioncore.Machine.{Machine, done, read64, write64}
use fusioncore.Machine.Bytes.{Memory}
use fusioncore.Machine.Laws.{word, put, word-put_self, word-put_apart}
use fusioncore.Mm.Memmap.{page_size, align_down}
use fusioncore.Mm.Virt.{
  entry_at, index_at, table_of, vmm_get_or_create_pml, vmm_set_pt_value, vmm_map_page,
  vmm_unmap_page,
}

-- The entry on each level that the processor reads for an address, from the word of the level above.
abbrev pub pml4_entry : ℕ → ℕ → ℕ
pml4_entry root virt = entry_at root (index_at 39 virt)

abbrev pub pdpt_entry : Memory → ℕ → ℕ → ℕ
pdpt_entry mem root virt = entry_at (table_of (word mem (pml4_entry root virt))) (index_at 30 virt)

abbrev pub pd_entry : Memory → ℕ → ℕ → ℕ
pd_entry mem root virt =
    entry_at (table_of (word mem (pdpt_entry mem root virt))) (index_at 21 virt)

abbrev pub pt_entry : Memory → ℕ → ℕ → ℕ
pt_entry mem root virt = entry_at (table_of (word mem (pd_entry mem root virt))) (index_at 12 virt)

abbrev pub is_present : ℕ → Bool
is_present entry = not (bit_and entry 1 == 0)

-- An upper entry that leads to a table: present, without bit 7, with which the processor takes the
-- entry for a large page, or as reserved.
abbrev pub is_table : ℕ → Bool
is_table entry = is_present entry && (bit_and entry 0x80 == 0)

-- The end of a walk that read these four words: the last, if it is present and the others each
-- lead to a table.
abbrev pub walked : ℕ → ℕ → ℕ → ℕ → Option ℕ
walked w4 w3 w2 w1 =
    if is_table w4 && is_table w3 && is_table w2 && is_present w1 then some w1 else none

-- The processor's walk. What it answers is the last entry; the rights of the upper entries are not
-- in it.
unfoldable pub translate : Memory → ℕ → ℕ → Option ℕ
translate mem root virt =
    walked (word mem (pml4_entry root virt)) (word mem (pdpt_entry mem root virt))
      (word mem (pd_entry mem root virt)) (word mem (pt_entry mem root virt))

-- The three tables on the way to a page are there.
pub record HasTables (mem : Memory) (root virt : ℕ) : Type 0 where
  pub pml4 : is_table (word mem (pml4_entry root virt)) ≡ true
  pub pdpt : is_table (word mem (pdpt_entry mem root virt)) ≡ true
  pub pd : is_table (word mem (pd_entry mem root virt)) ≡ true

-- The words at two addresses do not overlap.
abbrev pub WordsApart : ℕ → ℕ → Type 0
WordsApart a b = (a + 8 ≤ b) ⊎ (b + 8 ≤ a)

negated_is_false : (b : Bool) → not b ≡ true → b ≡ false
negated_is_false true h = cc h
negated_is_false false h = refl

pub table-present : (w : ℕ) → is_table w ≡ true → is_present w ≡ true
table-present w h = first (is_present w) (bit_and w 0x80 == 0) h
  where
    first : (b c : Bool) → (b && c) ≡ true → b ≡ true
    first true c h = refl
    first false c h = h

pub get_present :
    (pml i flags : ℕ) (m : Machine)
    → is_present (word m.mem (entry_at pml i)) ≡ true
    → vmm_get_or_create_pml pml i flags m ≡ done (table_of (word m.mem (entry_at pml i))) m
unfolding vmm_get_or_create_pml read64
get_present pml i flags m present = rw (negated_is_false _ present) refl

pub set_present :
    (root virt flags value : ℕ) (m : Machine)
    → HasTables m.mem root virt
    → vmm_set_pt_value root virt flags value m
      ≡ done tt (record m { mem = put m.mem (pt_entry m.mem root virt) value })
unfolding vmm_set_pt_value write64
set_present root virt flags value m tables =
    rw
      (
        get_present root (index_at 39 virt) flags m
            (table-present (word m.mem (pml4_entry root virt)) tables.pml4),
        get_present (table_of (word m.mem (pml4_entry root virt))) (index_at 30 virt) flags m
            (table-present (word m.mem (pdpt_entry m.mem root virt)) tables.pdpt),
        get_present (table_of (word m.mem (pdpt_entry m.mem root virt))) (index_at 21 virt) flags m
            (table-present (word m.mem (pd_entry m.mem root virt)) tables.pd),
      )
      refl

-- A walk that does not read the word at `a`.
pub record Avoids (mem : Memory) (root virt a : ℕ) : Type 0 where
  pub pml4 : WordsApart (pml4_entry root virt) a
  pub pdpt : WordsApart (pdpt_entry mem root virt) a
  pub pd : WordsApart (pd_entry mem root virt) a

module _ (mem : Memory) (root virt a v : ℕ) (avoids : Avoids mem root virt a) where
  pml4_word : word (put mem a v) (pml4_entry root virt) ≡ word mem (pml4_entry root virt)
  pml4_word = word-put_apart mem a v (pml4_entry root virt) avoids.pml4

  pdpt_same : pdpt_entry (put mem a v) root virt ≡ pdpt_entry mem root virt
  pdpt_same = ap (λ w. entry_at (table_of w) (index_at 30 virt)) pml4_word

  pdpt_word :
      word (put mem a v) (pdpt_entry (put mem a v) root virt) ≡ word mem (pdpt_entry mem root virt)
  pdpt_word =
      ap (word (put mem a v)) pdpt_same
      ∙ word-put_apart mem a v (pdpt_entry mem root virt) avoids.pdpt

  pd_same : pd_entry (put mem a v) root virt ≡ pd_entry mem root virt
  pd_same = ap (λ w. entry_at (table_of w) (index_at 21 virt)) pdpt_word

  pd_word :
      word (put mem a v) (pd_entry (put mem a v) root virt) ≡ word mem (pd_entry mem root virt)
  pd_word =
      ap (word (put mem a v)) pd_same ∙ word-put_apart mem a v (pd_entry mem root virt) avoids.pd

  pt_same : pt_entry (put mem a v) root virt ≡ pt_entry mem root virt
  pt_same = ap (λ w. entry_at (table_of w) (index_at 12 virt)) pd_word

  -- The walk reads the same tables, and the word of the last level as it is now.
  translate-put :
      translate (put mem a v) root virt
      ≡ walked
          (word mem (pml4_entry root virt))
          (word mem (pdpt_entry mem root virt))
          (word mem (pd_entry mem root virt))
          (word (put mem a v) (pt_entry mem root virt))
  unfolding translate
  translate-put =
      let after = put mem a v in
      let w2 = word after (pd_entry after root virt) in
      let w1 = word after (pt_entry after root virt) in
      ap (λ w. walked w (word after (pdpt_entry after root virt)) w2 w1) pml4_word
      ∙ ap (λ w. walked (word mem (pml4_entry root virt)) w w2 w1) pdpt_word
      ∙ ap
          (λ w. walked (word mem (pml4_entry root virt)) (word mem (pdpt_entry mem root virt)) w w1)
          pd_word
      ∙ ap
          (λ e.
            walked (word mem (pml4_entry root virt)) (word mem (pdpt_entry mem root virt))
              (word mem (pd_entry mem root virt)) (word after e))
          pt_same

pub walked-all :
    (w4 w3 w2 w1 : ℕ)
    → is_table w4 ≡ true
    → is_table w3 ≡ true
    → is_table w2 ≡ true
    → walked w4 w3 w2 w1 ≡ (if is_present w1 then some w1 else none)
walked-all w4 w3 w2 w1 p4 p3 p2 = rw (p4, p3, p2) refl

-- Mapping a page whose three tables are there returns, and then the processor's walk for the page
-- ends at the physical address with the flags, if the walk does not pass the word that is written
-- and that word fits and is present.
pub vmm_map_page-translates :
    (root phys virt flags : ℕ) (m : Machine)
    → HasTables m.mem root (align_down virt page_size)
    → Avoids m.mem root
        (align_down virt page_size)
        (pt_entry m.mem root (align_down virt page_size))
    → bit_or phys flags < 2 ^ 64
    → is_present (bit_or phys flags) ≡ true
    → (after : Memory) × (vmm_map_page root phys virt flags m ≡ done tt (record m { mem = after }))
      × (translate after root (align_down virt page_size) ≡ some (bit_or phys flags))
unfolding vmm_map_page
vmm_map_page-translates root phys virt flags m tables avoids fits present =
    let page = align_down virt page_size in
    let a = pt_entry m.mem root page in
    let v = bit_or phys flags in
    (
      put m.mem a v,
      set_present root page flags v m tables,
      translate-put m.mem root page a v avoids
          ∙ walked-all (word m.mem (pml4_entry root page)) (word m.mem (pdpt_entry m.mem root page))
              (word m.mem (pd_entry m.mem root page)) (word (put m.mem a v) a) tables.pml4
              tables.pdpt tables.pd
          ∙ ap (λ w. if is_present w then some w else none) (word-put_self m.mem a v fits)
          ∙ if-true _ _ _ present,
    )

-- Unmapping a page whose three tables are there returns, and then the walk for the page finds no
-- present entry, if it does not pass the word that is written.
pub vmm_unmap_page-translates :
    (root virt : ℕ) (m : Machine)
    → HasTables m.mem root (align_down virt page_size)
    → Avoids m.mem root
        (align_down virt page_size)
        (pt_entry m.mem root (align_down virt page_size))
    → (after : Memory) × (vmm_unmap_page root virt m ≡ done tt (record m { mem = after }))
      × (translate after root (align_down virt page_size) ≡ none)
unfolding vmm_unmap_page
vmm_unmap_page-translates root virt m tables avoids =
    let page = align_down virt page_size in
    let a = pt_entry m.mem root page in
    (
      put m.mem a 0,
      set_present root page 0 0 m tables,
      translate-put m.mem root page a 0 avoids
          ∙ walked-all (word m.mem (pml4_entry root page)) (word m.mem (pdpt_entry m.mem root page))
              (word m.mem (pd_entry m.mem root page)) (word (put m.mem a 0) a) tables.pml4
              tables.pdpt tables.pd
          ∙ ap (λ w. if is_present w then some w else none) (word-put_self m.mem a 0 (omega arith)),
    )

-- Mapping a page whose three tables are there changes no walk that reads none of the word that it
-- writes.
pub vmm_map_page-elsewhere :
    (root phys virt flags other : ℕ) (m : Machine)
    → HasTables m.mem root (align_down virt page_size)
    → Avoids m.mem root other (pt_entry m.mem root (align_down virt page_size))
    → WordsApart (pt_entry m.mem root other) (pt_entry m.mem root (align_down virt page_size))
    → (after : Memory) × (vmm_map_page root phys virt flags m ≡ done tt (record m { mem = after }))
      × (translate after root other ≡ translate m.mem root other)
unfolding vmm_map_page translate
vmm_map_page-elsewhere root phys virt flags other m tables avoids off_last =
    let page = align_down virt page_size in
    let a = pt_entry m.mem root page in
    let v = bit_or phys flags in
    (
      put m.mem a v,
      set_present root page flags v m tables,
      translate-put m.mem root other a v avoids
          ∙ ap
              (walked (word m.mem (pml4_entry root other))
                (word m.mem (pdpt_entry m.mem root other)) (word m.mem (pd_entry m.mem root other)))
              (word-put_apart m.mem a v (pt_entry m.mem root other) off_last),
    )
