-- ===== src/Coverage/Resolve/Flow/Access.antt =====
-- How the two updates of `ArcSummary.Resolve` (utils/python/coverage/arc_summary.py) read back.
use test_vts.Base.{
  sym, ℕ, ◌≡◌, refl, ap, ◌∙◌, true, ◌&&◌, List, [], ◌∷◌, arith, ◌==◌, ltb, length, get_or, elem,
  remove, nat_eq, Bool-cases, inl, inr, if◌then◌else◌,
}
use test_vts.Base.Int.{ℤ, sum_by}
use test_vts.Base.Arrays.{get_or-set, get_or_outside, length-set, sum_by-same}
use test_vts.Coverage.Summary.{Function, Block, new_block}
use test_vts.Coverage.Resolve.{
  no_arc, no_block, arc, entry_arcs, exit_arcs, all_resolved, sum_counts, set_count, remove_exit,
  is_dropped,
}

module _ (f : Function) (a : ℕ) where
  pub arc-set_count :
      (n : ℤ) (c : ℕ)
      → arc (set_count f a n) c ≡ (
          if a == c && ltb a (length f.arcs)
          then record (arc f a) { count = n; resolved = true }
          else arc f c)
  unfolding arc set_count
  arc-set_count n c = get_or-set f.arcs a c _ no_arc

  pub length-set_count : (n : ℤ) → length (set_count f a n).arcs ≡ length f.arcs
  unfolding set_count
  length-set_count n = length-set f.arcs a _

  pub exit_arcs-remove_exit :
      (b c : ℕ)
      → exit_arcs (remove_exit f b a) c
        ≡ (if b == c then remove a (exit_arcs f b) else exit_arcs f c)
  unfolding exit_arcs remove_exit new_block
  exit_arcs-remove_exit b c =
      let block = get_or f.blocks b no_block in
      let written =
        get_or-set f.blocks b c (record block { exit_arcs = remove a block.exit_arcs }) no_block in
      elim (Bool-cases (ltb b (length f.blocks))) [
        | inl inside ↦ ground (arith, written)
        | inr outside ↦ elim (Bool-cases (b == c)) [
          | inl same ↦
              let e : block ≡ no_block = get_or_outside f.blocks b no_block outside in
              let e' : get_or f.blocks c no_block ≡ no_block =
                get_or_outside f.blocks c no_block (ground arith) in
              ap (λ (k : Block). k.exit_arcs) written
              ∙ rw (same, outside, e') (ap (λ (k : Block). remove a k.exit_arcs) (sym e))
          | inr other ↦ ground (arith, written)
        ]
      ]

  pub entry_arcs-remove_exit : (b c : ℕ) → entry_arcs (remove_exit f b a) c ≡ entry_arcs f c
  unfolding exit_arcs entry_arcs remove_exit
  entry_arcs-remove_exit b c = ground (
    arith,
    get_or-set f.blocks b c
        (record (get_or f.blocks b no_block) { exit_arcs = remove a (exit_arcs f b) }) no_block,
  )

  -- The ends and the flags of an arc never change.
  pub ends-set_count :
      (n : ℤ) (c : ℕ)
      → ((arc (set_count f a n) c).src_block ≡ (arc f c).src_block)
        × ((arc (set_count f a n) c).dst_block ≡ (arc f c).dst_block)
        × (is_dropped (set_count f a n) c ≡ is_dropped f c)
  unfolding is_dropped
  ends-set_count n c = ground (arith, arc-set_count n c)

resolved_of_all :
    (f : Function) (ids : List ℕ) (a : ℕ)
    → all_resolved f ids ≡ true
    → elem a ids ≡ true
    → (arc f a).resolved ≡ true
unfolding all_resolved
resolved_of_all f [] a h m = cc
resolved_of_all f (x ∷ ids) a h m = ground (arith, resolved_of_all f ids a)

-- Where all arcs of a list are resolved, their counts add up to the flow.
pub sum_counts-flow :
    (f : Function) (flow : ℕ → ℤ) (ids : List ℕ)
    → ((a : ℕ) → (arc f a).resolved ≡ true → (arc f a).count ≡ flow a)
    → all_resolved f ids ≡ true
    → sum_counts f ids ≡ sum_by flow ids
unfolding sum_counts
sum_counts-flow f flow ids known h =
    sum_by-same (λ a. (arc f a).count) flow ids (λ a m. known a (resolved_of_all f ids a h m))

module _ (f : Function) (a : ℕ) where
  pub arcs_of-set_count :
      (n : ℤ) (b : ℕ)
      → (exit_arcs (set_count f a n) b ≡ exit_arcs f b)
        × (entry_arcs (set_count f a n) b ≡ entry_arcs f b)
  unfolding exit_arcs entry_arcs set_count
  arcs_of-set_count n b = (refl, refl)

  pub size-set_count : (n : ℤ) → length (set_count f a n).blocks ≡ length f.blocks
  unfolding set_count
  size-set_count n = refl

  pub arc-remove_exit : (b c : ℕ) → arc (remove_exit f b a) c ≡ arc f c
  unfolding arc remove_exit
  arc-remove_exit b c = refl

  pub is_dropped-remove_exit : (b c : ℕ) → is_dropped (remove_exit f b a) c ≡ is_dropped f c
  unfolding is_dropped
  is_dropped-remove_exit b c = ground (arith, arc-remove_exit b c)

  pub size-remove_exit :
      (b : ℕ)
      → (length (remove_exit f b a).blocks ≡ length f.blocks)
        × (length (remove_exit f b a).arcs ≡ length f.arcs)
  unfolding remove_exit
  size-remove_exit b = (length-set f.blocks b _, refl)
