-- ===== src/Coverage/Gcda/Counts.antt =====
-- Reading back the counts that are written for `ReadCounts` of utils/python/coverage/gcda_parser.py.
use mathlib.Core.List.{append_assoc}
use test_vts.Base.{
  ◌||◌, not, Bool, ℕ, ◌^◌, ◌<◌, ◌≡◌, refl, ◌∙◌, List, [], ◌∷◌, ◌++◌, arith, nat_eq, Bool-cases, inl,
  inr, if◌then◌else◌,
}
use test_vts.Base.Int.{ℤ, pos}
use test_vts.Coverage.Result.{ok}
use test_vts.Coverage.Stream.{Bytes, Big}
use test_vts.Coverage.Stream.RoundTrip.{write_int64, read_int64-write_int64}
use test_vts.Coverage.Summary.{Block, Function}
use test_vts.Coverage.Resolve.{arc, set_count}
use test_vts.Coverage.Resolve.Flow.Access.{arc-set_count}
use test_vts.Coverage.Gcno.Graph.{}
use test_vts.Coverage.Gcda.{is_counted, read_count, read_arc_counts, read_block_counts, read_counts}

-- The arcs whose counts a GCDA file has: GCC counts neither fake arcs nor those on the spanning tree.
abbrev pub is_measured : Function → ℕ → Bool
is_measured f a = not ((arc f a).fake || (arc f a).on_tree)

-- The bytes of the counts, in the order of the blocks and of their exits.
module _ (big : Big) (f : Function) (flow : ℕ → ℕ) where
  abbrev pub write_arc_counts : List ℕ → Bytes
  write_arc_counts [] = []
  write_arc_counts (a ∷ ids) =
      (if is_measured f a then write_int64 big (flow a) else []) ++ write_arc_counts ids

  abbrev pub write_block_counts : List Block → Bytes
  write_block_counts [] = []
  write_block_counts (b ∷ bs) = write_arc_counts b.exit_arcs ++ write_block_counts bs

  abbrev pub write_counts : Bytes
  write_counts = write_block_counts f.blocks

-- The function with the counts of its measured arcs.
module _ (flow : ℕ → ℕ) where
  abbrev pub with_count : ℕ → Function → Function
  with_count a f = if is_measured f a then set_count f a (pos (flow a)) else f

  abbrev pub with_arc_counts : List ℕ → Function → Function
  with_arc_counts [] f = f
  with_arc_counts (a ∷ ids) f = with_arc_counts ids (with_count a f)

  abbrev pub with_block_counts : List Block → Function → Function
  with_block_counts [] f = f
  with_block_counts (b ∷ bs) f = with_block_counts bs (with_arc_counts b.exit_arcs f)

  abbrev pub with_counts : Function → Function
  with_counts f = with_block_counts f.blocks f

is_measured-set_count :
    (f : Function) (a : ℕ) (n : ℤ) (c : ℕ) → is_measured (set_count f a n) c ≡ is_measured f c
is_measured-set_count f a n c = ground (arith, arc-set_count f a n c)

is_measured-with_count :
    (flow : ℕ → ℕ) (a : ℕ) (f : Function) (c : ℕ)
    → is_measured (with_count flow a f) c ≡ is_measured f c
is_measured-with_count flow a f c = elim (Bool-cases (is_measured f a)) [
  | inl yes_counted ↦ rw yes_counted (is_measured-set_count f a (pos (flow a)) c)
  | inr not_counted ↦ rw not_counted refl
]

is_measured-with_arc_counts :
    (flow : ℕ → ℕ) (ids : List ℕ) (f : Function) (c : ℕ)
    → is_measured (with_arc_counts flow ids f) c ≡ is_measured f c
is_measured-with_arc_counts flow [] f c = refl
is_measured-with_arc_counts flow (a ∷ ids) f c =
    is_measured-with_arc_counts flow ids (with_count flow a f) c ∙ is_measured-with_count flow a f c

module _ (big : Big) (flow : ℕ → ℕ) (small : (a : ℕ) → flow a < 2 ^ 64) where
  -- `g` is the function while it is read; the flags are those of `f`.
  read_arc_counts-write :
      (f : Function) (ids : List ℕ) (g : Function) (rest : Bytes)
      → ((a : ℕ) → is_measured g a ≡ is_measured f a)
      → read_arc_counts big ids g (write_arc_counts big f flow ids ++ rest)
        ≡ ok (with_arc_counts flow ids g, rest)
  unfolding read_arc_counts read_count is_counted
  read_arc_counts-write f [] g rest same = refl
  read_arc_counts-write f (a ∷ ids) g rest same = elim (Bool-cases (is_measured f a)) [
    | inl counted ↦ ground (
      arith,
      same a,
      append_assoc (write_int64 big (flow a)) (write_arc_counts big f flow ids) rest,
      read_int64-write_int64 big (flow a) (write_arc_counts big f flow ids ++ rest) (small a),
      read_arc_counts-write f ids (with_count flow a g) rest
          (λ c. is_measured-with_count flow a g c ∙ same c),
    )
    | inr skipped ↦ ground (arith, same a, read_arc_counts-write f ids g rest same)
  ]

  read_block_counts-write :
      (f : Function) (bs : List Block) (g : Function) (rest : Bytes)
      → ((a : ℕ) → is_measured g a ≡ is_measured f a)
      → read_block_counts big bs g (write_block_counts big f flow bs ++ rest)
        ≡ ok (with_block_counts flow bs g, rest)
  unfolding read_block_counts
  read_block_counts-write f [] g rest same = refl
  read_block_counts-write f (b ∷ bs) g rest same = ground (
    arith,
    append_assoc (write_arc_counts big f flow b.exit_arcs) (write_block_counts big f flow bs) rest,
    read_arc_counts-write f b.exit_arcs g (write_block_counts big f flow bs ++ rest) same,
    read_block_counts-write f bs (with_arc_counts flow b.exit_arcs g) rest
        (λ c. is_measured-with_arc_counts flow b.exit_arcs g c ∙ same c),
  )

  -- `ReadCounts` reads back 64-bit counts that are written for the exits of the blocks that are
  -- neither fake nor on the tree, in their order, and leaves what follows.
  pub read_counts-write_counts :
      (f : Function) (rest : Bytes)
      → read_counts big f (write_counts big f flow ++ rest) ≡ ok (with_counts flow f, rest)
  unfolding read_counts
  read_counts-write_counts f rest = read_block_counts-write f f.blocks f rest (λ a. refl)
