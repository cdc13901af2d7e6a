-- ===== src/Acpi/Madt/Walk.antt =====
-- The walk along the entries of the table of interrupt controllers.
use fusioncore.Base.{
  ℕ, zero, suc, ◌+◌, ◌≤◌, ◌<◌, ◌≡◌, refl, sym, ◌∙◌, ap, true, false, List, if-true, subst,
  Bool-cases, inl, inr, [], ◌∷◌, ◌++◌, arith, length, ltb, lt→ltb, ◌==◌, if◌then◌else◌,
}
use mathlib.Core.List.{append_assoc, append-nil}
use fusioncore.Machine.Bytes.{Memory}
use fusioncore.Acpi.Sdt.{returned, sdt_len}
use fusioncore.Acpi.Madt.{Madt, empty_madt, madt_entries, push, add_entry, madt_walk, madt_collect}

-- From `e` on the entries are `es`, each as long as its second byte says, and the last one
-- reaches `end`.
pub data Entries (m : Memory) (end : ℕ) : ℕ → List ℕ → Type 0 where
  finish : {e : ℕ} → end ≤ e → Entries m end e []
  entry :
      {e : ℕ} {es : List ℕ} → e < end → Entries m end (e + m (e + 1)) es → Entries m end e (e ∷ es)

-- The entries of one type, in order.
unfoldable pub of_kind : Memory → ℕ → List ℕ → List ℕ
of_kind m kind [] = []
of_kind m kind (e ∷ es) = if m e == kind then e ∷ of_kind m kind es else of_kind m kind es

-- A table with the entries `es` sorted into its lists behind those that are there.
abbrev pub sorted : Memory → Madt → List ℕ → Madt
sorted m t es = record {
  lapics = t.lapics ++ of_kind m 0 es;
  ioapics = t.ioapics ++ of_kind m 1 es;
  isos = t.isos ++ of_kind m 2 es;
  lapic_nmis = t.lapic_nmis ++ of_kind m 4 es;
}

sorted-nil : (m : Memory) (t : Madt) → t ≡ sorted m t []
unfolding of_kind
sorted-nil m t = λ i. record {
  lapics = sym (append-nil t.lapics) i;
  ioapics = sym (append-nil t.ioapics) i;
  isos = sym (append-nil t.isos) i;
  lapic_nmis = sym (append-nil t.lapic_nmis) i;
}

-- No array has more than its 32 pointers.
pub record Fits (t : Madt) : Type 0 where
  pub lapics : length t.lapics ≤ 32
  pub ioapics : length t.ioapics ≤ 32
  pub isos : length t.isos ≤ 32
  pub lapic_nmis : length t.lapic_nmis ≤ 32

length-append : (a b : List ℕ) → length (a ++ b) ≡ length a + length b
length-append [] b = omega arith
length-append (x ∷ a) b = omega (arith, length-append a b)

push-room :
    (held more rest : List ℕ) (e : ℕ)
    → more ≡ e ∷ rest
    → length (held ++ more) ≤ 32
    → push held e ≡ returned (held ++ e ∷ [])
push-room held more rest e here fits =
    let long = length-append held more in
    let one_more : length more ≡ length rest + 1 = ap length here ∙ omega arith in
    if-true _ _ _ (lt→ltb (length held) 32 (omega arith))

-- The table with an entry behind the others of its type.
abbrev placed : ℕ → ℕ → Madt → Madt
placed kind e t =
    if kind == 0
    then record t { lapics = t.lapics ++ e ∷ [] }
    else (if kind == 1
        then record t { ioapics = t.ioapics ++ e ∷ [] }
        else (if kind == 2
            then record t { isos = t.isos ++ e ∷ [] }
            else (if kind == 4 then record t { lapic_nmis = t.lapic_nmis ++ e ∷ [] } else t)))

sorted-cons :
    (m : Memory) (t : Madt) (e : ℕ) (es : List ℕ)
    → sorted m (placed (m e) e t) es ≡ sorted m t (e ∷ es)
unfolding of_kind
sorted-cons m t e es = ground (
  arith,
  append_assoc t.lapics (e ∷ []) (of_kind m 0 es),
  append_assoc t.ioapics (e ∷ []) (of_kind m 1 es),
  append_assoc t.isos (e ∷ []) (of_kind m 2 es),
  append_assoc t.lapic_nmis (e ∷ []) (of_kind m 4 es),
)

of_kind-here :
    (m : Memory) (kind e : ℕ) (es : List ℕ)
    → (m e == kind) ≡ true
    → of_kind m kind (e ∷ es) ≡ e ∷ of_kind m kind es
unfolding of_kind
of_kind-here m kind e es same = if-true _ _ _ same

-- Where the sorted table fits, there is room for its next entry.
add_entry-placed :
    (m : Memory) (t : Madt) (e : ℕ) (es : List ℕ)
    → Fits (sorted m t (e ∷ es))
    → add_entry (m e) e t ≡ returned (placed (m e) e t)
unfolding add_entry
add_entry-placed m t e es f = elim (Bool-cases (m e == 0)) [
  | inl k0 ↦ rw (k0, push-room t.lapics _ _ e (of_kind-here m 0 e es k0) f.lapics) refl
  | inr n0 ↦ elim (Bool-cases (m e == 1)) [
    | inl k1 ↦ rw (n0, k1, push-room t.ioapics _ _ e (of_kind-here m 1 e es k1) f.ioapics) refl
    | inr n1 ↦ elim (Bool-cases (m e == 2)) [
      | inl k2 ↦ rw (n0, n1, k2, push-room t.isos _ _ e (of_kind-here m 2 e es k2) f.isos) refl
      | inr n2 ↦ elim (Bool-cases (m e == 4)) [
        | inl k4 ↦
            rw
              (n0, n1, n2, k4, push-room t.lapic_nmis _ _ e (of_kind-here m 4 e es k4) f.lapic_nmis)
              refl
        | inr n4 ↦ rw (n0, n1, n2, n4) refl
      ]
    ]
  ]
]

module _ (m : Memory) (end : ℕ) where
  madt_walk-sorted :
      (fuel : ℕ) {e : ℕ} {es : List ℕ} (t : Madt)
      → Entries m end e es
      → length es < fuel
      → Fits (sorted m t es)
      → madt_walk fuel m end e t ≡ returned (sorted m t es)
  unfolding madt_walk
  madt_walk-sorted zero t c enough fits = absurd (omega arith)
  madt_walk-sorted (suc fuel) {e} t (finish past) enough fits =
      rw (past_end) (ap returned (sorted-nil m t))
    where
      past_end : ltb e end ≡ false
      past_end = ground arith
  madt_walk-sorted (suc fuel) {e} t (entry {es} below c) enough fits =
      rw (lt→ltb e end below, add_entry-placed m t e es fits)
        (madt_walk-sorted fuel (placed (m e) e t) c (omega arith)
            (subst Fits (sym (sorted-cons m t e es)) fits)
          ∙ ap returned (sorted-cons m t e es))

-- Over entries that follow one another to the end of the table, at most 32 of each type that is
-- kept, the walk ends and sorts them by type, in order, and leaves other types out, if the fuel is
-- more than the entries.
pub madt_collect-sorted :
    (m : Memory) (madt fuel : ℕ) (es : List ℕ)
    → Entries m (madt + sdt_len m madt) (madt_entries madt) es
    → length es < fuel
    → Fits (sorted m empty_madt es)
    → madt_collect fuel m madt ≡ returned (sorted m empty_madt es)
unfolding madt_collect
madt_collect-sorted m madt fuel es c enough fits =
    madt_walk-sorted m (madt + sdt_len m madt) fuel empty_madt c enough fits
