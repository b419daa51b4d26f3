-- ===== src/Coverage/Resolve.antt =====
-- utils/python/coverage: `ArcSummary.Resolve` and `FunctionSummary.Resolve`.
pub mod Ends
pub mod Flow
use test_vts.Base.{
  ℕ, zero, suc, ◌+◌, ◌*◌, ◌%◌, Bool, true, false, not, ◌&&◌, List, [], ◌∷◌, ◌++◌, Option, none,
  some, ◌==◌, length, get_or, set, is_empty, all, remove, others, nat_eq, if◌then◌else◌,
}
use test_vts.Base.Int.{ℤ, pos, ◌-ℤ◌, sum_by}
use test_vts.Coverage.Summary.{Arc, Block, Function, new_arc, new_block}

-- What a position that no object has stands for.
abbrev pub no_arc : Arc
unfolding new_arc
no_arc = new_arc 0 0 0

abbrev pub no_block : Block
unfolding new_block
no_block = new_block 0 0

module _ (f : Function) where
  unfoldable pub arc : ℕ → Arc
  arc a = get_or f.arcs a no_arc

  unfoldable pub entry_arcs : ℕ → List ℕ
  entry_arcs b = (get_or f.blocks b no_block).entry_arcs

  unfoldable pub exit_arcs : ℕ → List ℕ
  exit_arcs b = (get_or f.blocks b no_block).exit_arcs

  unfoldable pub all_resolved : List ℕ → Bool
  all_resolved ids = all (λ a. (arc a).resolved) ids

  unfoldable pub sum_counts : List ℕ → ℤ
  sum_counts ids = sum_by (λ a. (arc a).count) ids

  -- `self.count = count; self.resolved = True`
  unfoldable pub set_count : ℕ → ℤ → Function
  set_count a count = record f {
    arcs = set f.arcs a (record (arc a) { count = count; resolved = true });
  }

  -- `block.exit_arcs.remove(self)`
  unfoldable pub remove_exit : ℕ → ℕ → Function
  remove_exit b a = record f {
    blocks =
        set f.blocks b (record (get_or f.blocks b no_block) { exit_arcs = remove a (exit_arcs b) });
  }

  unfoldable pub from_source : ℕ → Bool
  from_source a =
      let src = (arc a).src_block in
      not (is_empty (entry_arcs src))
      && all_resolved (entry_arcs src)
      && all_resolved (others a (exit_arcs src))

  unfoldable pub from_dest : ℕ → Bool
  from_dest a =
      let dst = (arc a).dst_block in
      not (is_empty (exit_arcs dst))
      && all_resolved (exit_arcs dst)
      && all_resolved (others a (entry_arcs dst))

  unfoldable pub source_count : ℕ → ℤ
  source_count a =
      let src = (arc a).src_block in
      sum_counts (entry_arcs src) -ℤ sum_counts (others a (exit_arcs src))

  unfoldable pub dest_count : ℕ → ℤ
  dest_count a =
      let dst = (arc a).dst_block in
      sum_counts (exit_arcs dst) -ℤ sum_counts (others a (entry_arcs dst))

  unfoldable pub is_dropped : ℕ → Bool
  is_dropped a = (arc a).fake && not (arc a).fallthrough

  -- `ArcSummary.Resolve`
  unfoldable pub resolve_arc : ℕ → Function × Bool
  resolve_arc a =
      if is_dropped a
      then (remove_exit (arc a).src_block a, true)
      else if from_source a
      then (set_count a (source_count a), true)
      else if from_dest a
      then (set_count a (dest_count a), true)
      else (f, false)

  unfoldable pub unresolved_of : List ℕ → List ℕ
  unresolved_of [] = []
  unresolved_of (a ∷ ids) = if (arc a).resolved then unresolved_of ids else a ∷ unresolved_of ids

  unfoldable pub unresolved_in : List Block → List ℕ
  unresolved_in [] = []
  unresolved_in (b ∷ bs) = unresolved_of b.exit_arcs ++ unresolved_in bs

  unfoldable pub block_count : Block → Block
  block_count b = record b {
    count = if is_empty b.entry_arcs then sum_counts b.exit_arcs else sum_counts b.entry_arcs;
  }

  unfoldable pub block_counts : List Block → List Block
  block_counts [] = []
  block_counts (b ∷ bs) = block_count b ∷ block_counts bs

-- The `while` loop. `none` is a lack of fuel.
unfoldable pub resolve_loop : ℕ → Function → List ℕ → ℕ → ℕ → Option (Function × Bool)
resolve_loop zero f unresolved index prev_length = none
resolve_loop (suc fuel) f [] index prev_length = some (f, true)
resolve_loop (suc fuel) f (u ∷ us) index prev_length =
    let unresolved = u ∷ us in
    let i = index % length unresolved in
    let a = get_or unresolved i u in
    let r = resolve_arc f a in
    let rest =
      resolve_loop fuel r.0 (if r.1 then remove a unresolved else unresolved)
        (if r.1 then i else i + 1) (length unresolved) in
    if i == 0 && length unresolved == prev_length then some (f, false) else rest

abbrev pub resolve_fuel : ℕ → ℕ
resolve_fuel n = n * n + 3 * n + 1

-- What follows the loop: `return False`, or the counts of the blocks and `return True`.
unfoldable pub after_loop : Option (Function × Bool) → Option (Function × Bool)
after_loop none = none
after_loop (some (f, true)) = some (record f { blocks = block_counts f f.blocks }, true)
after_loop (some (f, false)) = some (f, false)

-- `FunctionSummary.Resolve`
unfoldable pub resolve : Function → Option (Function × Bool)
unfolding after_loop
resolve f =
    let unresolved = unresolved_in f f.blocks in
    after_loop
      (resolve_loop (resolve_fuel (length unresolved)) f unresolved 0 (length unresolved + 1))
