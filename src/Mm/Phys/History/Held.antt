-- ===== src/Mm/Phys/History/Held.antt =====
-- The list of held pages as a set.
use fusioncore.Base.{
  ℕ, zero, suc, ◌+◌, ◌<◌, ◌≤◌, ◌≡◌, refl, inl, inr, Bool, true, false, not, ◌&&◌, none, some, List,
  [], ◌∷◌, arith, length, ◌==◌, Bool-cases, ==_iff, ◌∙◌, sym, ap,
}
use mathlib.Core.Bool.{false≢true, ◌||◌}
use fusioncore.Mm.Phys.History.{elem, remove, first_where}

-- No page is held twice.
abbrev pub Distinct : List ℕ → Type 0
Distinct [] = Unit {0}
Distinct (x ∷ xs) = (elem x xs ≡ false) × Distinct xs

pub elem-remove :
    (a b : ℕ) (xs : List ℕ) → Distinct xs → elem b (remove a xs) ≡ (not (a == b) && elem b xs)
elem-remove a b [] d = ground arith
elem-remove a b (x ∷ xs) (fresh, d) = elim (Bool-cases (x == a)) [
  | inl e ↦
      let not_held : x ≡ b → elem b xs ≡ false = λ same. rw (← same) fresh in
      rw e (ground (arith, not_held))
  | inr n ↦ rw n (ground (arith, elem-remove a b xs d))
]

pub Distinct-remove : (a : ℕ) (xs : List ℕ) → Distinct xs → Distinct (remove a xs)
Distinct-remove a [] d = tt
Distinct-remove a (x ∷ xs) (fresh, d) = elim (Bool-cases (x == a)) [
  | inl e ↦ rw e d
  | inr n ↦ rw n (ground (arith, elem-remove a x xs d), Distinct-remove a xs d)
]

pub length-remove :
    (a : ℕ) (xs : List ℕ) → elem a xs ≡ true → suc (length (remove a xs)) ≡ length xs
length-remove a [] h = cc h
length-remove a (x ∷ xs) h = elim (Bool-cases (x == a)) [
  | inl e ↦ rw e refl
  | inr n ↦ rw n (ap suc (length-remove a xs (rw n at h)))
]

pub first_where-found :
    (f : ℕ → Bool) (n i j : ℕ)
    → i ≤ j
    → j < i + n
    → f j ≡ true
    → ((k : ℕ) → i ≤ k → k < j → f k ≡ false)
    → first_where f n i ≡ some j
first_where-found f zero i j p q h below = absurd (omega arith)
first_where-found f (suc n) i j p q h below = elim (Bool-cases (i == j)) [
  | inl e ↦ let same : i ≡ j = (==_iff _ _).0 e in rw (same, h) refl
  | inr ne ↦
      let lt : i < j = ground arith in
      rw (below i (omega arith) lt) (
        first_where-found f n (i + 1) j (omega arith) (omega arith) h
          (λ k s t. below k (omega arith) t))
]

pub first_where-none :
    (f : ℕ → Bool) (n i : ℕ)
    → ((k : ℕ) → i ≤ k → k < i + n → f k ≡ false)
    → first_where f n i ≡ none
first_where-none f zero i h = refl
first_where-none f (suc n) i h =
    rw (h i (omega arith) (omega arith))
      (first_where-none f n (i + 1) (λ k s t. h k (omega arith) (omega arith)))

pub remove-not_held : (a : ℕ) (xs : List ℕ) → elem a xs ≡ false → remove a xs ≡ xs
remove-not_held a [] h = refl
remove-not_held a (x ∷ xs) h = elim (Bool-cases (x == a)) [
  | inl e ↦ absurd (false≢true (sym h ∙ ap (λ b. b || elem a xs) e))
  | inr n ↦ rw n (ap (λ l. x ∷ l) (remove-not_held a xs (rw n at h)))
]
