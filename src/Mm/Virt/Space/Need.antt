-- ===== src/Mm/Virt/Space/Need.antt =====
-- How many pages the tables of a range of pages take.
use fusioncore.Base.{
  ℕ, zero, suc, ◌+◌, ◌-◌, ◌*◌, ◌/◌, ◌%◌, ◌<◌, ◌≡◌, arith, Bool, false, not, ◌==◌, if◌then◌else◌,
  Bool-cases, inl, inr,
}

-- What `left` pages from number `v` on need above `n` pages. `ready` says that the lowest table of
-- page `v` is there; where it is not, three tables may be missing.
abbrev pub need : ℕ → Bool → ℕ → ℕ → ℕ
need zero ready v n = n
need (suc left) ready v n =
    let rest = need left (not (suc v % 512 == 0)) (suc v) n in
    if ready then rest else suc (suc (suc rest))

-- The lowest tables that `left` pages from number `v` on lie in.
abbrev pub lowest_tables : ℕ → ℕ → ℕ
lowest_tables v left = (v + left + 511) / 512 - v / 512

need-between :
    (left v n : ℕ)
    → need left (not (v % 512 == 0)) v n ≡ 3 * ((v + left + 511) / 512 - (v + 511) / 512) + n
need-between zero v n = omega arith
need-between (suc left) v n = elim (Bool-cases (v % 512 == 0)) [
  | inl starts ↦ rw starts (ground (arith, need-between left (suc v) n, starts))
  | inr within ↦ rw within (ground (arith, need-between left (suc v) n, within))
]

-- The pages that a range needs where nothing is known of its tables.
pub need_lem : (left v n : ℕ) → 0 < left → need left false v n ≡ 3 * lowest_tables v left + n
need_lem zero v n pos = elim pos [ ]
need_lem (suc left) v n pos = omega (arith, need-between left (suc v) n)
