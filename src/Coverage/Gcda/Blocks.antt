-- ===== src/Coverage/Gcda/Blocks.antt =====
-- From the counts that `ReadCounts` of utils/python/coverage/gcda_parser.py has read, `Resolve` finds
-- the count of every block.
use mathlib.Core.Path.{subst}
use test_vts.Base.{
  ap, sym, ◌++◌, ◌^◌, ℕ, ◌<◌, ◌≡◌, refl, ◌∙◌, true, List, [], ◌∷◌, some, arith, length, get_or,
  elem, nat_eq, Bool-cases, inl, inr,
}
use test_vts.Base.Int.{ℤ, pos}
use test_vts.Coverage.Result.{ok, ok-injective}
use test_vts.Coverage.Stream.{Big, Bytes}
use test_vts.Coverage.Gcda.{read_counts}
use test_vts.Coverage.Summary.{Block, Function}
use test_vts.Coverage.Resolve.{arc, entry_arcs, exit_arcs, set_count, is_dropped, resolve, no_block}
use test_vts.Coverage.Resolve.Flow.{IsGraph, IsFlow, IsMeasured}
use test_vts.Coverage.Resolve.Flow.Access.{
  arc-set_count, arcs_of-set_count, ends-set_count, length-set_count, size-set_count,
}
use test_vts.Coverage.Resolve.Flow.Counts.{block_flow, resolve-block_flow}
use test_vts.Coverage.Gcno.Graph.{IsWired}
use test_vts.Coverage.Gcda.Counts.{
  write_counts, read_counts-write_counts, is_measured, with_count, with_arc_counts,
  with_block_counts, with_counts,
}

abbrev pub counts_of : (ℕ → ℕ) → ℕ → ℤ
counts_of flow a = pos (flow a)

-- `g` is `f` with counts of the flow.
pub record IsReadOf (flow : ℕ → ℕ) (f g : Function) : Type 0 where
  pub arcs_of : (b : ℕ) → (exit_arcs g b ≡ exit_arcs f b) × (entry_arcs g b ≡ entry_arcs f b)
  pub ends :
      (c : ℕ)
      → ((arc g c).src_block ≡ (arc f c).src_block)
        × ((arc g c).dst_block ≡ (arc f c).dst_block)
        × (is_dropped g c ≡ is_dropped f c)
  pub sizes : (length g.arcs ≡ length f.arcs) × (length g.blocks ≡ length f.blocks)
  pub measured : IsMeasured g (counts_of flow)

module _ (flow : ℕ → ℕ) (f : Function) where
  pub IsReadOf-self : IsWired f → IsReadOf flow f f
  IsReadOf-self w = record {
    arcs_of = λ b. (refl, refl);
    ends = λ c. (refl, refl, refl);
    sizes = (refl, refl);
    measured = record {
      known = λ a h. ground (arith, w.fresh a);
      unknown = λ a h. ground (arith, w.fresh a);
    };
  }

  IsReadOf-set_count :
      (g : Function) (a : ℕ) → IsReadOf flow f g → IsReadOf flow f (set_count g a (pos (flow a)))
  IsReadOf-set_count g a r =
      let n = pos (flow a) in
      record {
        arcs_of = λ b. ground (arith, arcs_of-set_count g a n b, r.arcs_of b);
        ends = λ c. ground (arith, ends-set_count g a n c, r.ends c);
        sizes = ground (arith, length-set_count g a n, size-set_count g a n, r.sizes);
        measured = record {
          known = λ c h. ground (arith, arc-set_count g a n c, r.measured.known c);
          unknown = λ c h. ground (arith, arc-set_count g a n c, r.measured.unknown c);
        };
      }

  IsReadOf-with_count :
      (g : Function) (a : ℕ) → IsReadOf flow f g → IsReadOf flow f (with_count flow a g)
  IsReadOf-with_count g a r = elim (Bool-cases (is_measured g a)) [
    | inl counted ↦ rw counted (IsReadOf-set_count g a r)
    | inr skipped ↦ rw skipped r
  ]

  IsReadOf-with_arc_counts :
      (ids : List ℕ) (g : Function)
      → IsReadOf flow f g
      → IsReadOf flow f (with_arc_counts flow ids g)
  IsReadOf-with_arc_counts [] g r = r
  IsReadOf-with_arc_counts (a ∷ ids) g r =
      IsReadOf-with_arc_counts ids (with_count flow a g) (IsReadOf-with_count g a r)

  pub IsReadOf-with_block_counts :
      (bs : List Block) (g : Function)
      → IsReadOf flow f g
      → IsReadOf flow f (with_block_counts flow bs g)
  IsReadOf-with_block_counts [] g r = r
  IsReadOf-with_block_counts (b ∷ bs) g r =
      IsReadOf-with_block_counts bs (with_arc_counts flow b.exit_arcs g)
        (IsReadOf-with_arc_counts b.exit_arcs g r)

  module _ (g : Function) (r : IsReadOf flow f g) (w : IsWired f) where
    pub IsGraph-read : IsGraph g
    IsGraph-read = record {
      owned = λ b a h. ground (arith, r.arcs_of b, r.ends a, w.exits b a);
      enters = λ b a h. ground (
        arith,
        r.arcs_of b,
        r.arcs_of (arc f a).dst_block,
        r.ends a,
        w.exits b a,
        w.entries (arc f a).dst_block a,
      );
      bounded = λ b a h. ground (arith, r.arcs_of b, r.sizes, w.exits b a);
      exit_distinct = λ b. rw ((r.arcs_of b).0) (w.exit_distinct b);
      entry_distinct = λ b. rw ((r.arcs_of b).1) (w.entry_distinct b);
    }

    pub leaves-read :
        (b a : ℕ) → elem a (entry_arcs g b) ≡ true → elem a (exit_arcs g (arc g a).src_block) ≡ true
    leaves-read b a h = ground (
      arith,
      r.arcs_of b,
      r.arcs_of (arc f a).src_block,
      r.ends a,
      w.entries b a,
      w.exits (arc f a).src_block a,
    )

    pub IsFlow-read : IsFlow f (counts_of flow) → IsFlow g (counts_of flow)
    IsFlow-read h = record {
      conserved = λ b x y. ground (arith, r.arcs_of b, h.conserved b);
      dropped = λ a x. ground (arith, r.ends a, h.dropped a);
    }

  with_counts-block_flow :
      (g : Function)
      → IsWired f
      → IsFlow f (counts_of flow)
      → resolve (with_counts flow f) ≡ some (g, true)
      → (b : ℕ) → b < length f.blocks
      → (get_or g.blocks b no_block).count ≡ block_flow f (counts_of flow) b
  with_counts-block_flow g w h done b lt =
      let f' = with_counts flow f in
      let r : IsReadOf flow f f' = IsReadOf-with_block_counts f.blocks f (IsReadOf-self w) in
      resolve-block_flow f' (counts_of flow) g (IsGraph-read f' r w) (leaves-read f' r w)
        (IsFlow-read f' r w h) r.measured done b (ground (arith, r.sizes))
      ∙ ground (arith, r.arcs_of b)

  -- The counts of the measured arcs determine those of the blocks. Take a function of a GCNO file
  -- and a flow: how often each arc was taken, below 2 ^ 64, with as much entering a block as leaving
  -- it if arcs do both, and nothing on the dropped arcs. If `ReadCounts` reads the counts of the
  -- measured arcs, written in the order of the blocks and their exits, and `Resolve` succeeds on what
  -- it leaves, then the count of each block is the flow through it.
  pub read_counts-block_flow :
      (big : Big) (rest left : Bytes) (f' g : Function)
      → ((a : ℕ) → flow a < 2 ^ 64)
      → IsWired f
      → IsFlow f (counts_of flow)
      → read_counts big f (write_counts big f flow ++ rest) ≡ ok (f', left)
      → resolve f' ≡ some (g, true)
      → (b : ℕ) → b < length f.blocks
      → (get_or g.blocks b no_block).count ≡ block_flow f (counts_of flow) b
  read_counts-block_flow big rest left f' g small w h read done b lt =
      let both = ok-injective _ _ (sym (read_counts-write_counts big flow small f rest) ∙ read) in
      with_counts-block_flow g w h
        (subst (λ (k : Function). resolve k ≡ some (g, true)) (sym (ap (λ x. x.0) both)) done) b lt
