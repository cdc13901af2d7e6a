-- ===== src/Boot/Tags.antt =====
-- `stivale2_get_tag` over a list of tags that ends.
use fusioncore.Base.{
  ℕ, zero, suc, ◌<◌, ◌≡◌, ◌≢◌, refl, some, List, [], ◌∷◌, arith, length, ◌==◌, if◌then◌else◌,
}
use fusioncore.Machine.Bytes.{Memory}
use fusioncore.Boot.{tag_identifier, tag_next, struct_tags, find_tag, stivale2_get_tag}

-- From the pointer `p` on the tags are those at `tags`, and the last one's `next` is NULL.
pub data TagList (m : Memory) : ℕ → List ℕ → Type 0 where
  last : {p : ℕ} → p ≡ 0 → TagList m p []
  tag : {p : ℕ} {tags : List ℕ} → p ≢ 0 → TagList m (tag_next m p) tags → TagList m p (p ∷ tags)

-- The first tag with the identifier, 0 if there is none.
unfoldable pub first_tag : Memory → ℕ → List ℕ → ℕ
first_tag m id [] = 0
first_tag m id (p ∷ tags) = if tag_identifier m p == id then p else first_tag m id tags

module _ (m : Memory) (id : ℕ) where
  find_tag-first :
      (fuel : ℕ) {p : ℕ} {tags : List ℕ}
      → TagList m p tags
      → length tags < fuel
      → find_tag fuel m id p ≡ some (first_tag m id tags)
  unfolding find_tag first_tag
  find_tag-first zero l enough = absurd (omega arith)
  find_tag-first (suc fuel) (last e) enough = rw e refl
  find_tag-first (suc fuel) (tag {p} ne l) enough =
      ground (arith, find_tag-first fuel l (omega arith))

  -- Over a list of tags that ends, the search returns the first tag with the identifier, and NULL
  -- if there is none, if the fuel is more than the number of tags.
  pub stivale2_get_tag-first :
      (fuel stivale2_struct : ℕ) (tags : List ℕ)
      → TagList m (struct_tags m stivale2_struct) tags
      → length tags < fuel
      → stivale2_get_tag fuel m stivale2_struct id ≡ some (first_tag m id tags)
  unfolding stivale2_get_tag
  stivale2_get_tag-first fuel stivale2_struct tags l enough = find_tag-first fuel l enough
