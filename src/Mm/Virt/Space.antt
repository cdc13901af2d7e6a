-- ===== src/Mm/Virt/Space.antt =====
-- The page tables as a tree, and the address space that the tree makes: what holds of the tables
-- between two calls of fckrnl/mm/virt.c.
pub mod Words
pub mod Create
pub mod Descend
pub mod Leaf
pub mod Translate
pub mod Map
pub mod Need
pub mod Ranged
pub mod Range
pub mod Empty
pub mod Boot
pub mod Kept
use fusioncore.Base.{
  ℕ, zero, suc, ◌+◌, ◌*◌, ◌/◌, ◌%◌, ◌^◌, ◌<◌, ◌≤◌, ◌≡◌, Bool, true, false, ◌&&◌, Option, none, some,
  ◌==◌, if◌then◌else◌,
}
use fusioncore.Machine.{Machine}
use fusioncore.Machine.Bytes.{Memory}
use fusioncore.Machine.Laws.{word}
use fusioncore.Mm.Bitmap.{is_set}
use fusioncore.Mm.Memmap.{page_size}
use fusioncore.Mm.Phys.{Pmm}
use fusioncore.Mm.Phys.Search.{IsPmm}
use fusioncore.Mm.Virt.{entry_at, table_of}
use fusioncore.Mm.Virt.Walk.{is_present, is_table}

-- Where the tables lie: the table of level `k` for the prefix `p` of an address, which is what is
-- left of it above the bits that levels `k` and below take. The root is level 4, for prefix 0.
abbrev pub Tables : Type 0
Tables = ℕ → ℕ → Option ℕ

abbrev pub add_table : ℕ → ℕ → ℕ → Tables → Tables
add_table k p b tbl k' p' = if k' == k && p' == p then some b else tbl k' p'

-- `ptr` is a pointer to the table in the page at `a`.
abbrev pub PointsTo : ℕ → ℕ → Type 0
PointsTo ptr a = (i : ℕ) → i < 512 → entry_at ptr i ≡ a + 8 * i

-- The page of a table is the page allocator's, and in use.
pub record IsTable (p : Pmm) (a : ℕ) : Type 0 where
  pub aligned : a % page_size ≡ 0
  pub low : a < 2 ^ 46
  pub used : is_set p.bitmap (a / page_size) ≡ true

-- A word of an upper table: not present, or the address of the table below.
abbrev pub Leads : Option ℕ → ℕ → Type 0
Leads none w = is_present w ≡ false
Leads (some b) w = (is_table w ≡ true) × (table_of w ≡ b)

-- The tables make a tree under `root`: no two of them share a page, each entry of an upper table
-- leads to the table of its prefix, and no table is without the one above it.
pub record IsSpace (tbl : Tables) (root : ℕ) (m : Machine) : Type 0 where
  pub pages : IsPmm m.pmm
  pub top : ℕ
  pub is_root : tbl 4 0 ≡ some top
  pub points : PointsTo root top
  pub tables : (k p a : ℕ) → tbl k p ≡ some a → IsTable m.pmm a
  pub unshared : (k p k' p' a : ℕ) → tbl k p ≡ some a → tbl k' p' ≡ some a → (k ≡ k') × (p ≡ p')
  pub linked :
      (k p a i : ℕ)
      → tbl (suc (suc k)) p ≡ some a
      → i < 512
      → Leads (tbl (suc k) (p * 512 + i)) (word m.mem (a + 8 * i))
  pub rooted : (k p i : ℕ) → k ≤ 3 → tbl (suc k) p ≡ none → i < 512 → tbl k (p * 512 + i) ≡ none

abbrev pub present_word : ℕ → Option ℕ
present_word w = if is_present w then some w else none

-- The word of page number `v` in the table of the lowest level, if that table is there.
abbrev pub leaf_of : Memory → Option ℕ → ℕ → Option ℕ
leaf_of mem none v = none
leaf_of mem (some a) v = present_word (word mem (a + 8 * (v % 512)))

abbrev pub lookup : Tables → Memory → ℕ → Option ℕ
lookup tbl mem v = leaf_of mem (tbl 1 (v / 512)) v
