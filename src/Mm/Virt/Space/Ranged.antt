-- ===== src/Mm/Virt/Space/Ranged.antt =====
-- What a range of pages shows: the physical page of each of its pages, around the end of the 48 bits.
use fusioncore.Base.{
  ℕ, suc, ◌+◌, ◌-◌, ◌*◌, ◌%◌, ◌^◌, ◌<◌, bit_or, ◌≡◌, sym, ap, ◌∙◌, Option, some, arith, ◌==◌, ltb,
  if◌then◌else◌, if-true, if-false, Bool-cases, inl, inr, ==_iff, ltb-false, lt→ltb, ltb→lt,
}
use fusioncore.Mm.Memmap.{page_size}
use fusioncore.Mm.Virt.Space.Leaf.{page_number}

-- How many pages a page lies behind another, around the end of the 48 bits.
abbrev pub distance : ℕ → ℕ → ℕ
distance first other = (page_number other + 2 ^ 36 - page_number first) % 2 ^ 36

-- `left` pages from `virt` on have the physical pages from `phys` on; others are as before.
abbrev pub ranged : ℕ → ℕ → ℕ → ℕ → (ℕ → Option ℕ) → ℕ → Option ℕ
ranged virt phys flags left before other =
    if ltb (distance virt other) left
    then some (bit_or (phys + distance virt other * page_size) flags)
    else before other

-- The first page of the rest lies one page behind the first page.
distance_near :
    (first next other : ℕ)
    → next ≡ first + page_size
    → page_number other ≡ page_number first
    → (distance first other ≡ 0) × (distance next other ≡ 2 ^ 36 - 1)
distance_near first next other e same = (omega (arith, same), omega (arith, same, e))

distance_far :
    (first next other : ℕ)
    → next ≡ first + page_size
    → (page_number other ≡ page_number first → ⊥)
    → distance first other ≡ suc (distance next other)
distance_far first next other e ne = ground (arith, e)

module _ (phys flags left : ℕ) (before : Option ℕ) where
  step_near :
      (d d' : ℕ)
      → d ≡ 0
      → d' ≡ 2 ^ 36 - 1
      → left < 2 ^ 36
      → (if ltb d' left
          then some (bit_or (phys + page_size + d' * page_size) flags)
          else some (bit_or phys flags))
        ≡ (if ltb d (suc left) then some (bit_or (phys + d * page_size) flags) else before)
  step_near d d' near far fits =
      if-false _ _ _ (ltb-false d' left (omega (arith, far)))
      ∙ ap (λ (t : ℕ). some (bit_or t flags)) (omega (arith, near))
      ∙ sym (if-true _ _ _ (lt→ltb d (suc left) (omega (arith, near))))

  step_far :
      (d d' : ℕ)
      → d ≡ suc d'
      → (if ltb d' left then some (bit_or (phys + page_size + d' * page_size) flags) else before)
        ≡ (if ltb d (suc left) then some (bit_or (phys + d * page_size) flags) else before)
  step_far d d' e = elim (Bool-cases (ltb d' left)) [
    | inl lt ↦
        if-true _ _ _ lt
        ∙ ap (λ (t : ℕ). some (bit_or t flags)) (omega (arith, e))
        ∙ sym (if-true _ _ _ (lt→ltb d (suc left) (omega (arith, e, ltb→lt d' left lt))))
    | inr ge ↦
        if-false _ _ _ ge
        ∙ sym (
            if-false (ltb d (suc left)) (some (bit_or (phys + d * page_size) flags)) _
              (ground (arith, e, ge)))
  ]

-- The first page and then the rest.
pub ranged-suc :
    (virt next phys flags left other : ℕ) (before : Option ℕ)
    → next ≡ virt + page_size
    → left < 2 ^ 36
    → (if ltb (distance next other) left
        then some (bit_or (phys + page_size + distance next other * page_size) flags)
        else (if page_number other == page_number virt then some (bit_or phys flags) else before))
      ≡ (if ltb (distance virt other) (suc left)
          then some (bit_or (phys + distance virt other * page_size) flags)
          else before)
ranged-suc virt next phys flags left other before e fits =
    elim (Bool-cases (page_number other == page_number virt)) [
      | inl same ↦
          let (near, far) = distance_near virt next other e ((==_iff _ _).0 same) in
          ap
            (λ o.
              if ltb (distance next other) left
              then some (bit_or (phys + page_size + distance next other * page_size) flags)
              else o)
            (if-true _ _ _ same)
          ∙ step_near phys flags left before _ _ near far fits
      | inr ne ↦
          ap
            (λ o.
              if ltb (distance next other) left
              then some (bit_or (phys + page_size + distance next other * page_size) flags)
              else o)
            (if-false _ _ _ ne)
          ∙ step_far phys flags left before _ _
              (distance_far virt next other e (λ same. ground arith))
    ]
