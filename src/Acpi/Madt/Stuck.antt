-- ===== src/Acpi/Madt/Stuck.antt =====
-- The walk along the table of interrupt controllers at an entry of length 0.
use fusioncore.Base.{
  ℕ, zero, suc, ◌+◌, ◌≤◌, ◌<◌, ◌≡◌, refl, sym, ◌∙◌, ap, subst, Bool, true, false, ◌&&◌, List, [],
  ◌∷◌, ◌++◌, arith, tests, length, ltb, lt→ltb, ◌==◌, if◌then◌else◌, if-true, if-false, Bool-cases,
  inl, inr,
}
use fusioncore.Machine.Bytes.{Memory}
use fusioncore.Acpi.Sdt.{returned, overrun, spinning, sdt_len}
use fusioncore.Acpi.Madt.{Madt, empty_madt, madt_entries, push, add_entry, madt_walk, madt_collect}

-- The types of entries that are kept.
abbrev pub is_listed : ℕ → Bool
is_listed kind =
    if kind == 0
    then true
    else (if kind == 1 then true else (if kind == 2 then true else kind == 4))

data Listed : ℕ → Type 0 where
  lapic : Listed 0
  ioapic : Listed 1
  iso : Listed 2
  lapic_nmi : Listed 4

is_listed-Listed : (kind : ℕ) → is_listed kind ≡ true → Listed kind
is_listed-Listed kind h = elim (Bool-cases (kind == 0)) [
  | inl k0 ↦ subst Listed (let e : 0 ≡ kind = ground arith in e) lapic
  | inr n0 ↦ elim (Bool-cases (kind == 1)) [
    | inl k1 ↦ subst Listed (let e : 1 ≡ kind = ground arith in e) ioapic
    | inr n1 ↦ elim (Bool-cases (kind == 2)) [
      | inl k2 ↦ subst Listed (let e : 2 ≡ kind = ground arith in e) iso
      | inr n2 ↦ subst Listed (let e : 4 ≡ kind = ground arith in e) lapic_nmi
    ]
  ]
]

-- How many entries of a listed type are kept.
abbrev held : {kind : ℕ} → Listed kind → Madt → ℕ
held lapic t = length t.lapics
held ioapic t = length t.ioapics
held iso t = length t.isos
held lapic_nmi t = length t.lapic_nmis

-- An entry of a listed type is kept, and counted, or there is no room for it.
record Adds {kind : ℕ} (l : Listed kind) (e : ℕ) (t : Madt) : Type 0 where
  after : Madt
  room : held l t < 32 → add_entry kind e t ≡ returned after
  more : held l after ≡ held l t + 1
  full : 32 ≤ held l t → add_entry kind e t ≡ overrun

length-snoc : (a : List ℕ) (e : ℕ) → length (a ++ e ∷ []) ≡ length a + 1
length-snoc [] e = refl
length-snoc (x ∷ a) e = omega (arith, length-snoc a e)

push-room : (a : List ℕ) (e : ℕ) → length a < 32 → push a e ≡ returned (a ++ e ∷ [])
push-room a e less = if-true _ _ _ (lt→ltb (length a) 32 less)

push-full : (a : List ℕ) (e : ℕ) → 32 ≤ length a → push a e ≡ overrun
push-full a e full = if-false (ltb (length a) 32) _ _ (ground arith)

add_entry-Adds : {kind : ℕ} (l : Listed kind) (e : ℕ) (t : Madt) → Adds l e t
unfolding add_entry
add_entry-Adds lapic e t = record {
  after = record t { lapics = t.lapics ++ e ∷ [] };
  room = λ less. rw (push-room t.lapics e less) refl;
  more = length-snoc t.lapics e;
  full = λ more. rw (push-full t.lapics e more) refl;
}
add_entry-Adds ioapic e t = record {
  after = record t { ioapics = t.ioapics ++ e ∷ [] };
  room = λ less. rw (push-room t.ioapics e less) refl;
  more = length-snoc t.ioapics e;
  full = λ more. rw (push-full t.ioapics e more) refl;
}
add_entry-Adds iso e t = record {
  after = record t { isos = t.isos ++ e ∷ [] };
  room = λ less. rw (push-room t.isos e less) refl;
  more = length-snoc t.isos e;
  full = λ more. rw (push-full t.isos e more) refl;
}
add_entry-Adds lapic_nmi e t = record {
  after = record t { lapic_nmis = t.lapic_nmis ++ e ∷ [] };
  room = λ less. rw (push-room t.lapic_nmis e less) refl;
  more = length-snoc t.lapic_nmis e;
  full = λ more. rw (push-full t.lapic_nmis e more) refl;
}

add_entry-other : (kind e : ℕ) (t : Madt) → is_listed kind ≡ false → add_entry kind e t ≡ returned t
unfolding add_entry
add_entry-other kind e t other = ground arith

module _ (m : Memory) (end e : ℕ) (below : e < end) (stuck : m (e + 1) ≡ 0) where
  same_entry : e + m (e + 1) ≡ e
  same_entry = omega arith

  madt_walk-full :
      (l : Listed (m e)) (fuel : ℕ) (t : Madt)
      → held l t ≤ 32
      → madt_walk fuel m end e t ≡ (if ltb 32 (held l t + fuel) then overrun else spinning)
  unfolding madt_walk
  madt_walk-full l zero t fits = sym (if-false (ltb 32 (held l t + 0)) _ _ (ground arith))
  madt_walk-full l (suc fuel) t fits =
      let a = add_entry-Adds l e t in
      elim (Bool-cases (ltb (held l t) 32)) [
        | inl room ↦
            rw (lt→ltb e end below, a.room (grind tests), same_entry)
              (madt_walk-full l fuel a.after (let more = a.more in ground arith)
                ∙ ap (λ n. if ltb 32 n then overrun else spinning)
                    (let more = a.more in
                      let n : held l a.after + fuel ≡ held l t + suc fuel = omega arith in n))
        | inr full ↦
            rw (lt→ltb e end below, a.full (ground arith))
              (sym (if-true (ltb 32 (held l t + suc fuel)) _ _ (ground arith)))
      ]

  madt_walk-other :
      (fuel : ℕ) (t : Madt) → is_listed (m e) ≡ false → madt_walk fuel m end e t ≡ spinning
  unfolding madt_walk
  madt_walk-other zero t other = refl
  madt_walk-other (suc fuel) t other =
      rw (lt→ltb e end below, add_entry-other (m e) e t other, same_entry)
        (madt_walk-other fuel t other)

-- On a table whose first entry has length 0 the walk does not return: if the entry's type is none
-- of those that are kept it goes round for ever, however much fuel it has; otherwise it goes round
-- 32 times and then writes behind the array of 32 pointers for that type.
pub madt_collect-stuck :
    (m : Memory) (madt fuel : ℕ)
    → madt_entries madt < madt + sdt_len m madt
    → m (madt_entries madt + 1) ≡ 0
    → madt_collect fuel m madt
      ≡ (if is_listed (m (madt_entries madt)) && ltb 32 fuel then overrun else spinning)
unfolding madt_collect
madt_collect-stuck m madt fuel below stuck =
    let e = madt_entries madt in
    let end = madt + sdt_len m madt in
    elim (Bool-cases (is_listed (m e))) [
      | inl listed ↦
          madt_walk-full m end e below stuck (is_listed-Listed (m e) listed) fuel empty_madt
            (none_held (is_listed-Listed (m e) listed))
          ∙ rw listed (
              ap (λ n. if ltb 32 n then overrun else spinning)
                (none_fuel (is_listed-Listed (m e) listed)))
      | inr other ↦ madt_walk-other m end e below stuck fuel empty_madt other ∙ rw other refl
    ]
  where
    none_held : {kind : ℕ} (l : Listed kind) → held l empty_madt ≤ 32
    none_held lapic = omega arith
    none_held ioapic = omega arith
    none_held iso = omega arith
    none_held lapic_nmi = omega arith

    none_fuel : {kind : ℕ} (l : Listed kind) → held l empty_madt + fuel ≡ fuel
    none_fuel lapic = omega arith
    none_fuel ioapic = omega arith
    none_fuel iso = omega arith
    none_fuel lapic_nmi = omega arith
