-- ===== src/Coverage/Resolve/Flow/Dropped.antt =====
-- `ArcSummary.Resolve` (utils/python/coverage/arc_summary.py) keeps the invariant where it drops a fake arc.
use test_vts.Base.{
  ℕ, ◌≡◌, sym, ◌∙◌, true, false, List, arith, ◌==◌, elem, is_empty, remove, Distinct, nat_eq,
  Bool-cases, inl, inr, ◌⊎◌, if◌then◌else◌,
}
use test_vts.Base.Int.{ℤ, sum_by}
use test_vts.Base.Arrays.{
  is_empty-remove, elem-remove, elem-remove_ne, elem-remove_self, Distinct-remove,
  sum_by-remove_zero,
}
use test_vts.Coverage.Summary.{Function}
use test_vts.Coverage.Resolve.{arc, exit_arcs, remove_exit, is_dropped}
use test_vts.Coverage.Resolve.Flow.{IsOngoing}
use test_vts.Coverage.Resolve.Flow.Access.{
  arc-remove_exit, is_dropped-remove_exit, size-remove_exit, exit_arcs-remove_exit,
  entry_arcs-remove_exit,
}

module _ (start : Function) (flow : ℕ → ℤ) (f : Function) (u : List ℕ)
    (inv : IsOngoing start flow f u) (a : ℕ) (found : elem a u ≡ true)
    (drop : is_dropped f a ≡ true) where
  -- The arc is taken out of the exits of its source.
  abbrev cut : Function
  cut = remove_exit f (arc f a).src_block a

  abbrev exits :
      (b : ℕ)
      → exit_arcs cut b ≡ (
          if (arc f a).src_block == b
          then remove a (exit_arcs f (arc f a).src_block)
          else exit_arcs f b)
  exits b = exit_arcs-remove_exit f a (arc f a).src_block b

  kept : (b c : ℕ) → elem c (exit_arcs cut b) ≡ true → elem c (exit_arcs f b) ≡ true
  kept b c m = ground (arith, exits b, elem-remove a c (exit_arcs f (arc f a).src_block))

  gone : (b : ℕ) → elem a (exit_arcs cut b) ≡ false
  gone b = ground (
    arith,
    exits b,
    inv.graph.owned b a,
    elem-remove_self a (exit_arcs f (arc f a).src_block) (inv.graph.exit_distinct _),
  )

  stays : (b c : ℕ) → elem c (exit_arcs f b) ≡ true → (c ≡ a) ⊎ (elem c (exit_arcs cut b) ≡ true)
  stays b c m = ground (arith, exits b, elem-remove_ne a c (exit_arcs f (arc f a).src_block))

  cut-Distinct : (b : ℕ) → Distinct (exit_arcs cut b)
  cut-Distinct b = elim (Bool-cases ((arc f a).src_block == b)) [
    | inl same ↦ rw (exits b, same) (Distinct-remove a _ (inv.graph.exit_distinct _))
    | inr other ↦ rw (exits b, other) (inv.graph.exit_distinct b)
  ]

  cut-sum : (b : ℕ) → sum_by flow (exit_arcs cut b) ≡ sum_by flow (exit_arcs f b)
  cut-sum b = ground (
    arith,
    exits b,
    sum_by-remove_zero flow a (exit_arcs f (arc f a).src_block) (inv.is_flow.dropped a drop),
  )

  cut-empty : (b : ℕ) → is_empty (exit_arcs cut b) ≡ false → is_empty (exit_arcs f b) ≡ false
  cut-empty b h = ground (arith, exits b, is_empty-remove a (exit_arcs f (arc f a).src_block))

  pub remove_exit-IsOngoing : IsOngoing start flow cut (remove a u)
  remove_exit-IsOngoing =
      let src = (arc f a).src_block in
      record {
        graph = record {
          owned =
              λ b c m. ground (arith, arc-remove_exit f a src c, kept b c m, inv.graph.owned b c);
          enters = λ b c m. ground (
            arith,
            arc-remove_exit f a src c,
            kept b c m,
            inv.graph.enters b c,
            entry_arcs-remove_exit f a src (arc f c).dst_block,
          );
          bounded =
              λ b c m. ground (arith, size-remove_exit f a src, kept b c m, inv.graph.bounded b c);
          exit_distinct = cut-Distinct;
          entry_distinct = λ b. rw (entry_arcs-remove_exit f a src b) (inv.graph.entry_distinct b);
        };
        is_flow = record {
          conserved = λ b h k. ground (
            arith,
            entry_arcs-remove_exit f a src b,
            cut-sum b,
            cut-empty b k,
            inv.is_flow.conserved b,
          );
          dropped = λ c h. inv.is_flow.dropped c (sym (is_dropped-remove_exit f a src c) ∙ h);
        };
        measured = record {
          known = λ c h. ground (arith, arc-remove_exit f a src c, inv.measured.known c);
          unknown = λ c h. ground (arith, arc-remove_exit f a src c, inv.measured.unknown c);
        };
        same_entries = λ b. entry_arcs-remove_exit f a src b ∙ inv.same_entries b;
        same_exits = λ b. cut-sum b ∙ inv.same_exits b;
        same_size = (size-remove_exit f a src).0 ∙ inv.same_size;
        leaves = λ b c m. ground (
          arith,
          drop,
          arc-remove_exit f a src c,
          is_dropped-remove_exit f a src c,
          entry_arcs-remove_exit f a src b,
          inv.leaves b c,
          stays (arc f c).src_block c,
        );
        pending = λ b c m. ground (
          arith,
          gone b,
          arc-remove_exit f a src c,
          kept b c m,
          inv.pending b c,
          elem-remove_ne a c u,
        );
        waiting = λ c m. ground (
          arith,
          arc-remove_exit f a src c,
          elem-remove a c u,
          elem-remove_self a u inv.distinct,
          inv.waiting c,
          stays (arc f c).src_block c,
        );
        distinct = Distinct-remove a u inv.distinct;
      }
