-- ===== src/Coverage/Resolve/Flow/Counts.antt =====
-- The counts that `FunctionSummary.Resolve` (utils/python/coverage/function_summary.py) leaves.
use mathlib.Core.Path.{subst}
use mathlib.Core.Option.{some-injective}
use test_vts.Base.{
  ℕ, zero, suc, ◌+◌, ◌%◌, ◌<◌, ◌≡◌, refl, sym, ap, ◌∙◌, Bool, true, false, ◌&&◌, List, [], ◌∷◌,
  Option, none, some, arith, ◌==◌, length, get_or, elem, is_empty, remove, nat_eq, Bool-cases, inl,
  inr, if◌then◌else◌,
}
use test_vts.Base.Int.{ℤ, sum_by}
use test_vts.Base.Arrays.{sum_by-same}
use test_vts.Coverage.Summary.{Function, Block}
use test_vts.Coverage.Resolve.{
  no_block, arc, entry_arcs, exit_arcs, sum_counts, is_dropped, from_source, from_dest, resolve_arc,
  resolve_loop, resolve_fuel, unresolved_in, block_count, block_counts, after_loop, resolve,
}
use test_vts.Coverage.Resolve.Ends.{elem-get_or}
use test_vts.Coverage.Resolve.Flow.{IsGraph, IsFlow, IsMeasured, IsOngoing}
use test_vts.Coverage.Resolve.Flow.Start.{start-IsOngoing}
use test_vts.Coverage.Resolve.Flow.Step.{source_count-flow, dest_count-flow, set_count-IsOngoing}
use test_vts.Coverage.Resolve.Flow.Dropped.{remove_exit-IsOngoing}

module _ (start : Function) (flow : ℕ → ℤ) where
  resolve_arc-IsOngoing :
      (f : Function) (u : List ℕ) (a : ℕ)
      → IsOngoing start flow f u
      → elem a u ≡ true
      → IsOngoing start flow (resolve_arc f a).0 (if (resolve_arc f a).1 then remove a u else u)
  unfolding resolve_arc
  resolve_arc-IsOngoing f u a inv found = elim (Bool-cases (is_dropped f a)) [
    | inl drop ↦ rw drop (remove_exit-IsOngoing start flow f u inv a found drop)
    | inr keep ↦ elim (Bool-cases (from_source f a)) [
      | inl src ↦
          rw (keep, src)
            (set_count-IsOngoing start flow f u inv a found _
              (source_count-flow start flow f u inv a found src))
      | inr later ↦ elim (Bool-cases (from_dest f a)) [
        | inl dst ↦
            rw (keep, later, dst)
              (set_count-IsOngoing start flow f u inv a found _
                (dest_count-flow start flow f u inv a found dst))
        | inr stuck ↦ rw (keep, later, stuck) inv
      ]
    ]
  ]

  -- What the loop returns.
  abbrev Finishes : Option (Function × Bool) → Type 0
  Finishes none = Unit
  Finishes (some (g, resolved)) =
      (w : List ℕ) × IsOngoing start flow g w × (resolved ≡ true → w ≡ [])

  resolve_loop-Finishes :
      (fuel : ℕ) (f : Function) (u : List ℕ) (index prev_length : ℕ)
      → IsOngoing start flow f u
      → Finishes (resolve_loop fuel f u index prev_length)
  unfolding resolve_loop
  resolve_loop-Finishes zero f u index prev inv = tt
  resolve_loop-Finishes (suc fuel) f [] index prev inv = ([], inv, λ _. refl)
  resolve_loop-Finishes (suc fuel) f (x ∷ xs) index prev inv =
      let i = index % length (x ∷ xs) in
      let a = get_or (x ∷ xs) i x in
      let found : elem a (x ∷ xs) ≡ true = elem-get_or (x ∷ xs) i x (omega arith) in
      elim (Bool-cases (i == 0 && length (x ∷ xs) == prev)) [
        | inl stop ↦ rw stop (x ∷ xs, inv, λ h. cc)
        | inr more ↦
            rw more
              (resolve_loop-Finishes fuel _ _ _ _ (resolve_arc-IsOngoing f (x ∷ xs) a inv found))
      ]

module _ (f : Function) (flow : ℕ → ℤ) (h : Function) (inv : IsOngoing f flow h []) where
  exit_count : (b a : ℕ) → elem a (exit_arcs h b) ≡ true → (arc h a).count ≡ flow a
  exit_count b a m = elim (inv.pending b a m) [
    | inl known ↦ inv.measured.known a known
    | inr never ↦ cc
  ]

  entry_count : (b a : ℕ) → elem a (entry_arcs h b) ≡ true → (arc h a).count ≡ flow a
  entry_count b a m = elim (inv.leaves b a m) [
    | inl out ↦ exit_count (arc h a).src_block a out
    | inr drop ↦ elim (Bool-cases (arc h a).resolved) [
      | inl known ↦ inv.measured.known a known
      | inr blank ↦ inv.measured.unknown a blank ∙ sym (inv.is_flow.dropped a drop)
    ]
  ]

  exit_sum : (b : ℕ) → sum_counts h (exit_arcs h b) ≡ sum_by flow (exit_arcs f b)
  unfolding sum_counts
  exit_sum b = sum_by-same _ flow (exit_arcs h b) (exit_count b) ∙ inv.same_exits b

  entry_sum : (b : ℕ) → sum_counts h (entry_arcs h b) ≡ sum_by flow (entry_arcs f b)
  unfolding sum_counts
  entry_sum b =
      sum_by-same _ flow (entry_arcs h b) (entry_count b) ∙ ap (sum_by flow) (inv.same_entries b)

get_or-block_counts :
    (h : Function) (bs : List Block) (b : ℕ)
    → b < length bs
    → get_or (block_counts h bs) b no_block ≡ block_count h (get_or bs b no_block)
unfolding block_counts
get_or-block_counts h [] b lt = absurd (omega arith)
get_or-block_counts h (x ∷ bs) zero lt = refl
get_or-block_counts h (x ∷ bs) (suc b) lt = get_or-block_counts h bs b (omega arith)

-- How often a block was run: what enters it, or what leaves it if nothing enters.
abbrev pub block_flow : Function → (ℕ → ℤ) → ℕ → ℤ
block_flow f flow b =
    if is_empty (entry_arcs f b) then sum_by flow (exit_arcs f b) else sum_by flow (entry_arcs f b)

module _ (f : Function) (flow : ℕ → ℤ) where
  loop_counts :
      (h : Function)
      → IsOngoing f flow h []
      → (b : ℕ) → b < length f.blocks
      → (get_or (block_counts h h.blocks) b no_block).count ≡ block_flow f flow b
  unfolding block_count entry_arcs exit_arcs
  loop_counts h inv b lt = ground (
    arith,
    inv.same_size,
    inv.same_entries b,
    get_or-block_counts h h.blocks b,
    exit_sum f flow h inv b,
    entry_sum f flow h inv b,
  )

  after_loop-counts :
      (o : Option (Function × Bool)) (g : Function)
      → Finishes f flow o
      → after_loop o ≡ some (g, true)
      → (b : ℕ) → b < length f.blocks
      → (get_or g.blocks b no_block).count ≡ block_flow f flow b
  unfolding after_loop
  after_loop-counts none g fin e b lt = cc
  after_loop-counts (some (h, false)) g fin e b lt = cc
  after_loop-counts (some (h, true)) g (w, inv, done) e b lt =
      let inv' = subst (IsOngoing f flow h) (done refl) inv in
      ap (λ (k : Function). (get_or k.blocks b no_block).count)
        (sym (ap (λ r. r.0) (some-injective _ _ e)))
      ∙ loop_counts h inv' b lt

  -- If `Resolve` succeeds, every block has the count that the flow gives it, whichever arcs were
  -- measured, provided that the measured counts belong to a flow through the graph.
  pub resolve-block_flow :
      (g : Function)
      → IsGraph f
      → ((b a : ℕ)
          → elem a (entry_arcs f b) ≡ true
          → elem a (exit_arcs f (arc f a).src_block) ≡ true)
      → IsFlow f flow
      → IsMeasured f flow
      → resolve f ≡ some (g, true)
      → (b : ℕ) → b < length f.blocks
      → (get_or g.blocks b no_block).count ≡ block_flow f flow b
  unfolding resolve
  resolve-block_flow g graph leaves is_flow measured =
      after_loop-counts
        (resolve_loop (resolve_fuel (length (unresolved_in f f.blocks))) f
          (unresolved_in f f.blocks) 0 (length (unresolved_in f f.blocks) + 1))
        g
        (resolve_loop-Finishes f flow _ f _ _ _
          (start-IsOngoing f flow graph leaves is_flow measured))
