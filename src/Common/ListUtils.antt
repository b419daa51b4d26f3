-- ===== src/Common/ListUtils.antt =====
-- utils/python/common/list_utils.py: merging without duplicates. The other helpers of that file
-- stand in the child modules.
pub mod Unique
pub mod Text
use test_vts.Base.{List, [], ◌∷◌, ◌++◌, Eq, elem, if◌then◌else◌}

-- `itertools.chain(*lists)`
abbrev pub chain {ℓ} : {A : Type ℓ} → List (List A) → List A
chain [] = []
chain (l ∷ ls) = l ++ chain ls

module _ {ℓ} {A : Type ℓ} ⦃e : Eq A⦄ where
  -- The comprehension of `MergeUniqueKeepOrder` over what is left of the chain, with the set `seen`.
  unfoldable pub unique_from : List A → List A → List A
  unique_from seen [] = []
  unique_from seen (x ∷ xs) =
      let kept = x ∷ unique_from (x ∷ seen) xs in
      let rest = unique_from seen xs in if elem x seen then rest else kept

  unfoldable pub merge_unique_keep_order : List (List A) → List A
  unfolding unique_from
  merge_unique_keep_order lists = unique_from [] (chain lists)

  unfoldable pub deduplicate_keep_order : List A → List A
  unfolding merge_unique_keep_order
  deduplicate_keep_order input = merge_unique_keep_order (input ∷ [])
