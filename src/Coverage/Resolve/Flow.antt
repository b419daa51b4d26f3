-- ===== src/Coverage/Resolve/Flow.antt =====
-- What `ArcSummary.Resolve` and `FunctionSummary.Resolve` of utils/python/coverage compute: the
-- counts of a flow that the measured counts belong to.
pub mod Access
pub mod Start
pub mod Step
pub mod Dropped
pub mod Counts
use test_vts.Base.{
  ℕ, ◌<◌, ◌≡◌, Bool, true, false, List, ◌⊎◌, length, elem, is_empty, Distinct, nat_eq,
}
use test_vts.Base.Int.{ℤ, pos, sum_by}
use test_vts.Coverage.Summary.{Function}
use test_vts.Coverage.Resolve.{arc, entry_arcs, exit_arcs, is_dropped}

-- The arcs of a block are arcs of the function, in the lists of the blocks that they join.
pub record IsGraph (f : Function) : Type 0 where
  pub owned : (b a : ℕ) → elem a (exit_arcs f b) ≡ true → (arc f a).src_block ≡ b
  pub enters :
      (b a : ℕ) → elem a (exit_arcs f b) ≡ true → elem a (entry_arcs f (arc f a).dst_block) ≡ true
  pub bounded : (b a : ℕ) → elem a (exit_arcs f b) ≡ true → a < length f.arcs
  pub exit_distinct : (b : ℕ) → Distinct (exit_arcs f b)
  pub entry_distinct : (b : ℕ) → Distinct (entry_arcs f b)

-- How often each arc was taken: what enters a block leaves it, if arcs do both, and no dropped arc
-- is ever taken.
pub record IsFlow (f : Function) (flow : ℕ → ℤ) : Type 0 where
  pub conserved :
      (b : ℕ)
      → is_empty (entry_arcs f b) ≡ false
      → is_empty (exit_arcs f b) ≡ false
      → sum_by flow (entry_arcs f b) ≡ sum_by flow (exit_arcs f b)
  pub dropped : (a : ℕ) → is_dropped f a ≡ true → flow a ≡ pos 0

-- The counts that are known are those of the flow, and an unknown count is 0.
pub record IsMeasured (f : Function) (flow : ℕ → ℤ) : Type 0 where
  pub known : (a : ℕ) → (arc f a).resolved ≡ true → (arc f a).count ≡ flow a
  pub unknown : (a : ℕ) → (arc f a).resolved ≡ false → (arc f a).count ≡ pos 0

-- The invariant of the loop over the function `start`, with `u` still to resolve.
pub record IsOngoing (start : Function) (flow : ℕ → ℤ) (f : Function) (u : List ℕ) : Type 0 where
  pub graph : IsGraph f
  pub is_flow : IsFlow f flow
  pub measured : IsMeasured f flow
  pub same_entries : (b : ℕ) → entry_arcs f b ≡ entry_arcs start b
  pub same_exits : (b : ℕ) → sum_by flow (exit_arcs f b) ≡ sum_by flow (exit_arcs start b)
  pub same_size : length f.blocks ≡ length start.blocks
  pub leaves :
      (b a : ℕ)
      → elem a (entry_arcs f b) ≡ true
      → (elem a (exit_arcs f (arc f a).src_block) ≡ true) ⊎ (is_dropped f a ≡ true)
  pub pending :
      (b a : ℕ) → elem a (exit_arcs f b) ≡ true → ((arc f a).resolved ≡ true) ⊎ (elem a u ≡ true)
  pub waiting : (a : ℕ) → elem a u ≡ true → elem a (exit_arcs f (arc f a).src_block) ≡ true
  pub distinct : Distinct u
