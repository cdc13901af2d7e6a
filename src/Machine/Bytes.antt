-- ===== src/Machine/Bytes.antt =====
-- Byte-addressed memory, and little-endian loads and stores of `n` bytes.
use native.Mathlib.Nat.{pow-suc, one-le-pow}
use fusioncore.Base.{
  ℕ, zero, suc, ◌+◌, ◌*◌, ◌/◌, ◌%◌, ◌^◌, ◌≤◌, ◌<◌, ◌∙◌, ◌≡◌, refl, ap, ◌⊎◌, inl, arith, ◌==◌,
  if◌then◌else◌, u8,
}

-- The byte at each address.
abbrev pub Memory : Type 0
Memory = ℕ → ℕ

-- `*(uint8_t *)a = v`
unfoldable pub poke : Memory → ℕ → ℕ → Memory
poke m a v x = if x == a then u8 v else m x

unfoldable pub load : ℕ → Memory → ℕ → ℕ
load zero m a = 0
load (suc n) m a = m a + 256 * load n m (a + 1)

unfoldable pub store : ℕ → Memory → ℕ → ℕ → Memory
store zero m a v = m
store (suc n) m a v = store n (poke m a v) (a + 1) (v / 256)

pub store-outside : (n : ℕ) (m : Memory) (a v x : ℕ) → (x < a) ⊎ (a + n ≤ x) → store n m a v x ≡ m x
unfolding store poke
store-outside zero m a v x out = refl
store-outside (suc n) m a v x out =
    ground (arith, store-outside n (poke m a v) (a + 1) (v / 256) x (omega arith))

-- A load reads only its own bytes.
pub load-ext :
    (n : ℕ) (m m' : Memory) (a : ℕ)
    → ((x : ℕ) → a ≤ x → x < a + n → m x ≡ m' x)
    → load n m a ≡ load n m' a
unfolding load
load-ext zero m m' a same = refl
load-ext (suc n) m m' a same = omega (
  arith,
  same a (omega arith) (omega arith),
  load-ext n m m' (a + 1) (λ x p q. same x (omega arith) (omega arith)),
)

-- A load is not changed by a store that does not overlap it.
pub load-store_apart :
    (k n : ℕ) (m : Memory) (b a v : ℕ)
    → (b + k ≤ a) ⊎ (a + n ≤ b)
    → load k (store n m a v) b ≡ load k m b
load-store_apart k n m b a v out =
    load-ext k (store n m a v) m b (λ x p q. store-outside n m a v x (omega arith))

mod-mul_digits : (v d : ℕ) → 0 < d → v % 256 + 256 * (v / 256 % d) ≡ v % (d * 256)
mod-mul_digits v d h = grind arith

poke_self : (m : Memory) (a v : ℕ) → poke m a v a ≡ v % 256
unfolding poke
poke_self m a v = ground arith

-- A load reads back what a store of as many bytes wrote, cut to those bytes.
pub load-store_self : (n : ℕ) (m : Memory) (a v : ℕ) → load n (store n m a v) a ≡ v % 256 ^ n
unfolding load store
load-store_self zero m a v = omega arith
load-store_self (suc n) m a v = omega (
  arith,
  store-outside n (poke m a v) (a + 1) (v / 256) a (inl (omega arith)),
  poke_self m a v,
  ap (λ (t : ℕ). 256 * t) (load-store_self n (poke m a v) (a + 1) (v / 256)),
  mod-mul_digits v (256 ^ n) (one-le-pow n 256 (omega arith)),
  ap (λ (t : ℕ). v % t) (pow-suc 256 n),
)

-- The low bytes of a store.
pub load-store_low :
    (k n : ℕ) (m : Memory) (a v : ℕ) → k ≤ n → load k (store n m a v) a ≡ v % 256 ^ k
unfolding load store
load-store_low zero n m a v fits = omega arith
load-store_low (suc k) zero m a v fits = absurd (omega arith)
load-store_low (suc k) (suc n) m a v fits = omega (
  arith,
  store-outside n (poke m a v) (a + 1) (v / 256) a (inl (omega arith)),
  poke_self m a v,
  ap (λ (t : ℕ). 256 * t) (load-store_low k n (poke m a v) (a + 1) (v / 256) (omega arith)),
  mod-mul_digits v (256 ^ k) (one-le-pow k 256 (omega arith)),
  ap (λ (t : ℕ). v % t) (pow-suc 256 k),
)

-- The same with the address as the loads count it.
load-halves_at :
    (m : Memory) (a : ℕ) → load 8 m a ≡ load 4 m a + 2 ^ 32 * load 4 m (a + 1 + 1 + 1 + 1)
unfolding load
load-halves_at m a = omega arith

pub load-halves : (m : Memory) (a : ℕ) → load 8 m a ≡ load 4 m a + 2 ^ 32 * load 4 m (a + 4)
load-halves m a =
    load-halves_at m a ∙ ap (λ (b : ℕ). load 4 m a + 2 ^ 32 * load 4 m b) (omega arith)
