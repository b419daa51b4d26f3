-- ===== src/Coverage/Resolve/Flow/Step.antt =====
-- One call of `ArcSummary.Resolve` (utils/python/coverage/arc_summary.py) keeps the invariant.
use test_vts.Base.{
  ℕ, ◌≡◌, refl, sym, ap, ◌∙◌, true, false, List, [], ◌∷◌, arith, elem, is_empty, others, remove,
  nat_eq, ◌⊎◌,
}
use test_vts.Base.Int.{ℤ, sum_by, int_laws}
use test_vts.Base.Arrays.{elem-remove, elem-remove_ne, Distinct-remove, sum_by-others}
use test_vts.Coverage.Summary.{Function}
use test_vts.Coverage.Resolve.{
  arc, entry_arcs, exit_arcs, set_count, from_source, from_dest, source_count, dest_count,
}
use test_vts.Coverage.Resolve.Flow.{IsGraph, IsFlow, IsMeasured, IsOngoing}
use test_vts.Coverage.Resolve.Flow.Access.{
  arcs_of-set_count, size-set_count, arc-set_count, length-set_count, ends-set_count,
  sum_counts-flow,
}

not-is_empty : (a : ℕ) (l : List ℕ) → elem a l ≡ true → is_empty l ≡ false
not-is_empty a [] h = cc
not-is_empty a (x ∷ l) h = refl

module _ (start : Function) (flow : ℕ → ℤ) (f : Function) (u : List ℕ)
    (inv : IsOngoing start flow f u) (a : ℕ) (found : elem a u ≡ true) where
  leaving : elem a (exit_arcs f (arc f a).src_block) ≡ true
  leaving = inv.waiting a found

  pub source_count-flow : from_source f a ≡ true → source_count f a ≡ flow a
  unfolding from_source source_count
  source_count-flow h =
      let src = (arc f a).src_block in
      let inn = sum_counts-flow f flow (entry_arcs f src) inv.measured.known (ground arith) in
      let out =
        sum_counts-flow f flow (others a (exit_arcs f src)) inv.measured.known (ground arith) in
      let equal = inv.is_flow.conserved src (ground arith) (not-is_empty a _ leaving) in
      let split = sum_by-others flow a (exit_arcs f src) (inv.graph.exit_distinct src) leaving in
      rw (inn, out) (rw (equal, split) (omega int_laws))

  pub dest_count-flow : from_dest f a ≡ true → dest_count f a ≡ flow a
  unfolding from_dest dest_count
  dest_count-flow h =
      let dst = (arc f a).dst_block in
      let entering = inv.graph.enters (arc f a).src_block a leaving in
      let out = sum_counts-flow f flow (exit_arcs f dst) inv.measured.known (ground arith) in
      let inn =
        sum_counts-flow f flow (others a (entry_arcs f dst)) inv.measured.known (ground arith) in
      let equal = inv.is_flow.conserved dst (not-is_empty a _ entering) (ground arith) in
      let split = sum_by-others flow a (entry_arcs f dst) (inv.graph.entry_distinct dst) entering in
      rw (inn, out) (rw (sym equal, split) (omega int_laws))

  -- The count of an arc is set to its flow.
  module _ (n : ℤ) (e : n ≡ flow a) where
    abbrev counted : Function
    counted = set_count f a n

    counted-IsGraph : IsGraph counted
    counted-IsGraph = record {
      owned = λ b c m.
          ground (arith, arcs_of-set_count f a n b, ends-set_count f a n c, inv.graph.owned b c);
      enters = λ b c m. ground (
        arith,
        arcs_of-set_count f a n b,
        arcs_of-set_count f a n (arc f c).dst_block,
        ends-set_count f a n c,
        inv.graph.enters b c,
      );
      bounded = λ b c m.
          ground (arith, arcs_of-set_count f a n b, length-set_count f a n, inv.graph.bounded b c);
      exit_distinct = λ b. rw ((arcs_of-set_count f a n b).0) (inv.graph.exit_distinct b);
      entry_distinct = λ b. rw ((arcs_of-set_count f a n b).1) (inv.graph.entry_distinct b);
    }

    counted-IsFlow : IsFlow counted flow
    counted-IsFlow = record {
      conserved = λ b h k. ground (arith, arcs_of-set_count f a n b, inv.is_flow.conserved b);
      dropped = λ c h. inv.is_flow.dropped c (sym (ends-set_count f a n c).2 ∙ h);
    }

    counted-IsMeasured : IsMeasured counted flow
    counted-IsMeasured = record {
      known = λ c h. ground (arith, e, arc-set_count f a n c, inv.measured.known c);
      unknown = λ c h. ground (arith, arc-set_count f a n c, inv.measured.unknown c);
    }

    counted-pending :
        (b c : ℕ)
        → elem c (exit_arcs counted b) ≡ true
        → ((arc counted c).resolved ≡ true) ⊎ (elem c (remove a u) ≡ true)
    counted-pending b c m = ground (
      arith,
      arcs_of-set_count f a n b,
      arc-set_count f a n c,
      inv.pending b c,
      inv.graph.bounded b c,
      elem-remove_ne a c u,
    )

    pub set_count-IsOngoing : IsOngoing start flow counted (remove a u)
    set_count-IsOngoing = record {
      graph = counted-IsGraph;
      is_flow = counted-IsFlow;
      measured = counted-IsMeasured;
      same_entries = λ b. (arcs_of-set_count f a n b).1 ∙ inv.same_entries b;
      same_exits = λ b. ap (sum_by flow) (arcs_of-set_count f a n b).0 ∙ inv.same_exits b;
      same_size = size-set_count f a n ∙ inv.same_size;
      leaves = λ b c m. ground (
        arith,
        arcs_of-set_count f a n b,
        arcs_of-set_count f a n (arc f c).src_block,
        ends-set_count f a n c,
        inv.leaves b c,
      );
      pending = counted-pending;
      waiting = λ c m. ground (
        arith,
        arcs_of-set_count f a n (arc f c).src_block,
        ends-set_count f a n c,
        elem-remove a c u,
        inv.waiting c,
      );
      distinct = Distinct-remove a u inv.distinct;
    }
