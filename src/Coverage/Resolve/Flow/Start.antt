-- ===== src/Coverage/Resolve/Flow/Start.antt =====
-- The invariant holds when the loop of `FunctionSummary.Resolve`
-- (utils/python/coverage/function_summary.py) begins.
use test_vts.Base.{
  ℕ, zero, suc, ◌+◌, ◌≡◌, refl, ◌∙◌, true, false, ◌&&◌, not, List, [], ◌∷◌, ◌++◌, arith, get_or,
  elem, elem-append, Distinct, nat_eq, Bool-cases, inl, inr,
}
use test_vts.Base.Int.{ℤ}
use test_vts.Coverage.Summary.{Function, Block, new_block}
use test_vts.Coverage.Resolve.{no_block, arc, entry_arcs, exit_arcs, unresolved_of, unresolved_in}
use test_vts.Coverage.Resolve.Flow.{IsGraph, IsFlow, IsMeasured, IsOngoing}

-- The exits of the block at a position.
abbrev exits_at : List Block → ℕ → List ℕ
exits_at bs b = (get_or bs b no_block).exit_arcs

module _ (f : Function) where
  elem-unresolved_of :
      (a : ℕ) (ids : List ℕ) → elem a (unresolved_of f ids) ≡ (elem a ids && not (arc f a).resolved)
  unfolding unresolved_of
  elem-unresolved_of a [] = refl
  elem-unresolved_of a (x ∷ ids) = ground (arith, elem-unresolved_of a ids)

  Distinct-unresolved_of : (ids : List ℕ) → Distinct ids → Distinct (unresolved_of f ids)
  unfolding unresolved_of
  Distinct-unresolved_of [] h = tt
  Distinct-unresolved_of (x ∷ ids) h = elim (Bool-cases (arc f x).resolved) [
    | inl done ↦ rw done (Distinct-unresolved_of ids h.1)
    | inr open_ ↦
        rw open_ (ground (arith, elem-unresolved_of x ids, h.0), Distinct-unresolved_of ids h.1)
  ]

  unresolved_in-has :
      (a : ℕ) (bs : List Block) (b : ℕ)
      → elem a (exits_at bs b) ≡ true
      → (arc f a).resolved ≡ false
      → elem a (unresolved_in f bs) ≡ true
  unfolding unresolved_in new_block
  unresolved_in-has a [] b m h = cc
  unresolved_in-has a (x ∷ bs) zero m h = ground (
    arith,
    elem-append a (unresolved_of f x.exit_arcs) (unresolved_in f bs),
    elem-unresolved_of a x.exit_arcs,
  )
  unresolved_in-has a (x ∷ bs) (suc b) m h = ground (
    arith,
    elem-append a (unresolved_of f x.exit_arcs) (unresolved_in f bs),
    unresolved_in-has a bs b m h,
  )

  unresolved_in-from :
      (a : ℕ) (bs : List Block)
      → elem a (unresolved_in f bs) ≡ true
      → (b : ℕ) × (elem a (exits_at bs b) ≡ true)
  unfolding unresolved_in
  unresolved_in-from a [] m = cc
  unresolved_in-from a (x ∷ bs) m = elim (Bool-cases (elem a x.exit_arcs)) [
    | inl here ↦ (zero, here)
    | inr later ↦
        let (b, h) = unresolved_in-from a bs (
          ground (
            arith,
            elem-append a (unresolved_of f x.exit_arcs) (unresolved_in f bs),
            elem-unresolved_of a x.exit_arcs,
          )) in
        (suc b, h)
  ]

Distinct-append :
    (xs ys : List ℕ)
    → Distinct xs
    → Distinct ys
    → ((a : ℕ) → elem a xs ≡ true → elem a ys ≡ false)
    → Distinct (xs ++ ys)
Distinct-append [] ys dx dy apart = dy
Distinct-append (x ∷ xs) ys dx dy apart = (
  ground (arith, elem-append x xs ys, dx.0, apart x),
  Distinct-append xs ys dx.1 dy (λ a m. apart a (ground arith)),
)

module _ (f : Function) where
  -- Blocks from position `k` on, whose exits have them as their source.
  Distinct-unresolved_in :
      (bs : List Block) (k : ℕ)
      → ((b a : ℕ) → elem a (exits_at bs b) ≡ true → (arc f a).src_block ≡ b + k)
      → ((b : ℕ) → Distinct (exits_at bs b))
      → Distinct (unresolved_in f bs)
  unfolding unresolved_in
  Distinct-unresolved_in [] k own d = tt
  Distinct-unresolved_in (x ∷ bs) k own d =
      Distinct-append (unresolved_of f x.exit_arcs) (unresolved_in f bs)
        (Distinct-unresolved_of f x.exit_arcs (d zero))
        (Distinct-unresolved_in bs (suc k) (λ b a m. own (suc b) a m ∙ omega arith)
          (λ b. d (suc b)))
        λ a m. elim (Bool-cases (elem a (unresolved_in f bs))) [
          | inl later ↦
              let (b, h) = unresolved_in-from f a bs later in
              let here = own zero a (ground (arith, elem-unresolved_of f a x.exit_arcs)) in
              let there = own (suc b) a h in absurd (omega (arith, here, there))
          | inr apart ↦ apart
        ]

module _ (f : Function) (flow : ℕ → ℤ) (graph : IsGraph f) where
  pub start-IsOngoing :
      ((b a : ℕ) → elem a (entry_arcs f b) ≡ true → elem a (exit_arcs f (arc f a).src_block) ≡ true)
      → IsFlow f flow
      → IsMeasured f flow
      → IsOngoing f flow f (unresolved_in f f.blocks)
  unfolding exit_arcs
  start-IsOngoing leaves is_flow measured = record {
    graph = graph;
    is_flow = is_flow;
    measured = measured;
    same_entries = λ b. refl;
    same_exits = λ b. refl;
    same_size = refl;
    leaves = λ b a m. inl (leaves b a m);
    pending = λ b a m. elim (Bool-cases (arc f a).resolved) [
      | inl known ↦ inl known
      | inr open_ ↦ inr (unresolved_in-has f a f.blocks b m open_)
    ];
    waiting = λ a m. let (b, h) = unresolved_in-from f a f.blocks m in rw (graph.owned b a h) h;
    distinct =
        Distinct-unresolved_in f f.blocks 0 (λ b a m. graph.owned b a m ∙ omega arith)
          graph.exit_distinct;
  }
