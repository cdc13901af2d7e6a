-- ===== src/Examples/Space.antt =====
-- Page tables on a memory of zeros, whose root is page 1.
use fusioncore.Base.{
  ℕ, zero, suc, ◌+◌, ◌*◌, ◌<◌, ◌≡◌, refl, true, false, none, some, List, [], ◌∷◌, arith, bit_or,
}
use fusioncore.Machine.{Machine}
use fusioncore.Machine.Bytes.{load}
use fusioncore.Machine.Laws.{word}
use fusioncore.Mm.Memmap.{phys_to_higher_half_data}
use fusioncore.Mm.Phys.{Pmm}
use fusioncore.Mm.Phys.Search.{IsPmm}
use fusioncore.Mm.Bitmap.{is_set}
use fusioncore.Mm.Phys.History.{elem}
use fusioncore.Mm.Phys.Free.{HasFree}
use fusioncore.Mm.Virt.{vmm_map_page, vmm_unmap_page, vmm_map_range}
use fusioncore.Mm.Virt.Space.{IsSpace, PointsTo}
use fusioncore.Mm.Virt.Space.Words.{high-PointsTo}
use fusioncore.Mm.Virt.Space.Empty.{only_root, empty-IsSpace}
use fusioncore.Mm.Virt.Space.Leaf.{page_number}
use fusioncore.Mm.Virt.Space.Map.{Updates, vmm_map_page-Updates, vmm_unmap_page-Updates}
use fusioncore.Mm.Virt.Space.Range.{MapsRange, vmm_map_range-MapsRange}

-- Pages 0 and 1 are in use.
abbrev pub pages : Pmm
pages = record {
  bitmap = record { map = 3 ∷ 0 ∷ []; size = 2 };
  hi_page_top = 0xf000;
  used_page_cnt = 2;
}

pub pages-IsPmm : IsPmm pages
pages-IsPmm = record {
  valid = record {
    bytes = elim [ zero ↦ omega arith | suc zero ↦ omega arith | suc (suc j) ↦ omega arith ];
  };
  covers = omega arith;
  fits_int = omega arith;
  null_used = refl;
}

abbrev pub blank : Machine
blank = record { mem = λ _. 0; pmm = pages }

abbrev root : ℕ
root = phys_to_higher_half_data 0x1000

root_points : PointsTo root 0x1000
root_points = high-PointsTo 0x1000 (omega arith) (omega arith)

zeros : (j : ℕ) → j < 512 → word blank.mem (0x1000 + 8 * j) ≡ 0
unfolding load
zeros j small = refl

blank-IsSpace : IsSpace (only_root 0x1000) root blank
blank-IsSpace =
    empty-IsSpace blank root 0x1000 pages-IsPmm
      (record { aligned = omega arith; low = omega arith; used = refl }) root_points zeros

abbrev free_list : List ℕ
free_list = 2 ∷ 3 ∷ 4 ∷ 5 ∷ 6 ∷ 7 ∷ []

listed_free : (j : ℕ) → elem j free_list ≡ true → is_set pages.bitmap j ≡ false
listed_free zero h = cc h
listed_free (suc zero) h = cc h
listed_free (suc (suc zero)) h = refl
listed_free (suc (suc (suc zero))) h = refl
listed_free (suc (suc (suc (suc zero)))) h = refl
listed_free (suc (suc (suc (suc (suc zero))))) h = refl
listed_free (suc (suc (suc (suc (suc (suc zero)))))) h = refl
listed_free (suc (suc (suc (suc (suc (suc (suc zero))))))) h = refl
listed_free (suc (suc (suc (suc (suc (suc (suc (suc j)))))))) h = absurd (ground arith)

listed_low : (j : ℕ) → elem j free_list ≡ true → j < 15
listed_low j h = ground arith

pub pages-HasFree : HasFree 6 pages
pages-HasFree = record {
  pages = free_list;
  distinct = (refl, (refl, (refl, (refl, (refl, (refl, tt))))));
  enough = refl;
  free = listed_free;
  below_top = listed_low;
  counted = omega arith;
  fits = omega arith;
}

-- Page 0x123 of the higher half.
abbrev virt : ℕ
virt = 0xffff_8000_0012_3000

vmm_map_page-Updates_example :
    Updates root blank
      (page_number virt)
      (some (bit_or 0x9000 3))
      6
      3
      (vmm_map_page root 0x9000 virt 3 blank)
vmm_map_page-Updates_example =
    vmm_map_page-Updates blank blank-IsSpace virt 3 (omega arith) 0x9000 3 (omega arith)
      (omega arith) (omega arith) (omega arith, omega arith) pages-HasFree

once_mapped :
    Updates root blank
      (page_number virt)
      (some (bit_or 0x9000 3))
      6
      3
      (vmm_map_page root 0x9000 virt 3 blank)
once_mapped =
    vmm_map_page-Updates blank blank-IsSpace virt 3 (omega arith) 0x9000 3 (omega arith)
      (omega arith) (omega arith) (omega arith, omega arith) pages-HasFree

vmm_unmap_page-Updates_example :
    Updates root once_mapped.after
      (page_number virt)
      none
      0
      0
      (vmm_unmap_page root virt once_mapped.after)
vmm_unmap_page-Updates_example =
    vmm_unmap_page-Updates once_mapped.after once_mapped.space virt 0 (omega arith)
      (bit_or 0x9000 3) (once_mapped.translates virt)

vmm_map_range-MapsRange_example :
    MapsRange root blank
      (0x5000 + 0xffff_8000_0000_0000)
      0x5000
      3
      2
      3
      (vmm_map_range root 0x5123 0x6fff 0xffff_8000_0000_0000 3 blank)
vmm_map_range-MapsRange_example =
    vmm_map_range-MapsRange root 3 0xffff_8000_0000_0000 (omega arith) (omega arith, omega arith)
      (omega arith) 0x5123 0x6fff 3 blank blank-IsSpace pages-HasFree (omega arith) (omega arith)
      (omega arith)
