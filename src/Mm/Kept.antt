-- ===== src/Mm/Kept.antt =====
-- What a part of the kernel leaves alone: the pages that are in use before it runs.
use fusioncore.Base.{ℕ, ◌≢◌, sym, ap, ◌+◌, ◌/◌, ◌%◌, ◌≤◌, ◌≡◌, refl, ◌∙◌, true, arith, length}
use mathlib.Core.Bool.{false≢true}
use fusioncore.Machine.{Machine}
use fusioncore.Mm.Slab.Objects.{Apart}
use fusioncore.Machine.Laws.{word}
use fusioncore.Mm.Bitmap.{is_set}
use fusioncore.Mm.Memmap.{page_size}
use fusioncore.Mm.Phys.{Pmm}
use fusioncore.Mm.Phys.Search.{IsPmm}
use fusioncore.Mm.Phys.Roundtrip.{Granted}

abbrev pub InUse : Pmm → ℕ → Type 0
InUse p a = is_set p.bitmap (a / page_size) ≡ true

-- From `m` to `m'` the pages in use stay in use, and their words keep.
pub record Keeps (m m' : Machine) : Type 0 where
  pub valid : IsPmm m'.pmm
  pub same_top : m'.pmm.hi_page_top ≡ m.pmm.hi_page_top
  pub same_length : length m'.pmm.bitmap.map ≡ length m.pmm.bitmap.map
  pub used : (j : ℕ) → is_set m.pmm.bitmap j ≡ true → is_set m'.pmm.bitmap j ≡ true
  pub words : (c : ℕ) → c % page_size + 8 ≤ page_size → InUse m.pmm c → word m'.mem c ≡ word m.mem c

pub Keeps-refl : {m : Machine} → IsPmm m.pmm → Keeps m m
Keeps-refl valid = record {
  valid = valid;
  same_top = refl;
  same_length = refl;
  used = λ j h. h;
  words = λ c within h. refl;
}

pub Keeps-trans : {m m1 m2 : Machine} → Keeps m m1 → Keeps m1 m2 → Keeps m m2
Keeps-trans k k' = record {
  valid = k'.valid;
  same_top = k'.same_top ∙ k.same_top;
  same_length = k'.same_length ∙ k.same_length;
  used = λ j h. k'.used j (k.used j h);
  words = λ c within h. k'.words c within (k.used _ h) ∙ k.words c within h;
}

-- A granted page was not in use, and is.
pub grant_keeps_off :
    {p p' : Pmm} {page : ℕ} (g : Granted 1 p page p') (c : ℕ)
    → c % page_size + 8 ≤ page_size
    → InUse p c
    → Apart c 8 page page_size
grant_keeps_off {p} g c within h =
    let ne : c / page_size ≢ g.index =
      λ same. false≢true (sym g.was_free ∙ ap (is_set p.bitmap) (sym same) ∙ h) in
    ground (arith, g.address, ne)

pub grant_keeps_used :
    {p p' : Pmm} {page : ℕ} (g : Granted 1 p page p') (j : ℕ)
    → is_set p.bitmap j ≡ true
    → is_set p'.bitmap j ≡ true
grant_keeps_used g j h = ground (arith, g.marked.filled.bits j)

pub grant_marks :
    {p p' : Pmm} {page : ℕ} (g : Granted 1 p page p') (a : ℕ) → a / page_size ≡ g.index → InUse p' a
grant_marks g a here = ground (arith, g.marked.filled.bits (a / page_size))
