-- ===== src/Coverage/Gcno/Graph.antt =====
-- The graphs that utils/python/coverage/gcno_parser.py builds: each arc of a function stands once in
-- the exits of its source and once in the entries of its destination, and nowhere else.
pub mod Wire
pub mod Files
use test_vts.Base.{
  sym, ap, ℕ, zero, suc, ◌+◌, ◌<◌, ◌≡◌, refl, ◌∙◌, Bool, true, false, ◌&&◌, List, [], ◌∷◌, ◌++◌,
  arith, ◌==◌, ltb, length, get_or, set, elem, elem-append, length-append, All, Distinct, nat_eq,
  Bool-cases, inl, inr, if◌then◌else◌,
}
use test_vts.Base.Int.{ℤ, pos}
use test_vts.Base.Arrays.{get_or-set, length-set}
use test_vts.Coverage.Summary.{Function, Arc, Block, new_arc, new_block}
use test_vts.Coverage.Resolve.{arc, entry_arcs, exit_arcs, no_block, no_arc}
use test_vts.Coverage.Gcno.{add_exit, add_entry, add_arc}

-- A function before any count is known.
pub record IsWired (f : Function) : Type 0 where
  pub exits :
      (b a : ℕ) → elem a (exit_arcs f b) ≡ (ltb a (length f.arcs) && (arc f a).src_block == b)
  pub entries :
      (b a : ℕ) → elem a (entry_arcs f b) ≡ (ltb a (length f.arcs) && (arc f a).dst_block == b)
  pub exit_distinct : (b : ℕ) → Distinct (exit_arcs f b)
  pub entry_distinct : (b : ℕ) → Distinct (entry_arcs f b)
  pub fresh : (a : ℕ) → ((arc f a).resolved ≡ false) × ((arc f a).count ≡ pos 0)

-- The arcs that leave and enter a block.
abbrev exits_at : List Block → ℕ → List ℕ
exits_at bs b = (get_or bs b no_block).exit_arcs

abbrev entries_at : List Block → ℕ → List ℕ
entries_at bs b = (get_or bs b no_block).entry_arcs

get_or-snoc {ℓ} :
    {A : Type ℓ} (l : List A) (x : A) (i : ℕ) (d : A)
    → get_or (l ++ x ∷ []) i d ≡ (if i == length l then x else get_or l i d)
get_or-snoc [] x zero d = refl
get_or-snoc [] x (suc i) d = ground arith
get_or-snoc (y ∷ l) x zero d = ground arith
get_or-snoc (y ∷ l) x (suc i) d = ground (arith, get_or-snoc l x i d)

module _ (bs : List Block) (b a : ℕ) where
  at-add_exit :
      ltb b (length bs) ≡ true
      → (c : ℕ)
      → (exits_at (add_exit b a bs) c ≡ (if b == c then exits_at bs b ++ a ∷ [] else exits_at bs c))
        × (entries_at (add_exit b a bs) c ≡ entries_at bs c)
  unfolding add_exit
  at-add_exit inside c =
      let written =
        get_or-set bs b c (record (get_or bs b no_block) { exit_arcs = exits_at bs b ++ a ∷ [] })
          no_block in
      ground (arith, written)

  at-add_entry :
      ltb b (length bs) ≡ true
      → (c : ℕ)
      → (entries_at (add_entry b a bs) c
          ≡ (if b == c then entries_at bs b ++ a ∷ [] else entries_at bs c))
        × (exits_at (add_entry b a bs) c ≡ exits_at bs c)
  unfolding add_entry
  at-add_entry inside c =
      let written =
        get_or-set bs b c (record (get_or bs b no_block) { entry_arcs = entries_at bs b ++ a ∷ [] })
          no_block in
      ground (arith, written)

  length-add_exit : length (add_exit b a bs) ≡ length bs
  unfolding add_exit
  length-add_exit = length-set bs b _

  length-add_entry : length (add_entry b a bs) ≡ length bs
  unfolding add_entry
  length-add_entry = length-set bs b _

Distinct-snoc : (a : ℕ) (l : List ℕ) → elem a l ≡ false → Distinct l → Distinct (l ++ a ∷ [])
Distinct-snoc a [] h d = (refl, tt)
Distinct-snoc a (x ∷ l) h d =
    (rw (elem-append x l (a ∷ [])) (ground (arith, d.0)), Distinct-snoc a l (ground arith) d.1)

module _ (f : Function) (src dst flag : ℕ) where
  pub length-add_arc : length (add_arc src dst flag f).blocks ≡ length f.blocks
  unfolding add_arc
  length-add_arc =
      length-add_entry (add_exit src (length f.arcs) f.blocks) dst (length f.arcs)
      ∙ length-add_exit f.blocks src (length f.arcs)

  arc-add_arc :
      (c : ℕ)
      → arc (add_arc src dst flag f) c
        ≡ (if c == length f.arcs then new_arc src dst flag else arc f c)
  unfolding add_arc arc
  arc-add_arc c = get_or-snoc f.arcs (new_arc src dst flag) c no_arc

  module _ (src_in : src < length f.blocks) (dst_in : dst < length f.blocks) where
    exit_arcs-add_arc :
        (c : ℕ)
        → exit_arcs (add_arc src dst flag f) c
          ≡ (if src == c then exit_arcs f src ++ length f.arcs ∷ [] else exit_arcs f c)
    unfolding add_arc exit_arcs
    exit_arcs-add_arc c =
        (at-add_entry (add_exit src (length f.arcs) f.blocks) dst (length f.arcs)
          (rw (length-add_exit f.blocks src (length f.arcs)) (ground arith)) c).1
        ∙ (at-add_exit f.blocks src (length f.arcs) (ground arith) c).0

    entry_arcs-add_arc :
        (c : ℕ)
        → entry_arcs (add_arc src dst flag f) c
          ≡ (if dst == c then entry_arcs f dst ++ length f.arcs ∷ [] else entry_arcs f c)
    unfolding add_arc entry_arcs
    entry_arcs-add_arc c =
        let more = add_exit src (length f.arcs) f.blocks in
        let exit = at-add_exit f.blocks src (length f.arcs) (ground arith) in
        (at-add_entry more dst (length f.arcs)
          (rw (length-add_exit f.blocks src (length f.arcs)) (ground arith)) c).0
        ∙ rw ((exit dst).1, (exit c).1) refl

    pub IsWired-add_arc : IsWired f → IsWired (add_arc src dst flag f)
    unfolding add_arc new_arc
    IsWired-add_arc w =
        let n = length f.arcs in
        let size : length (add_arc src dst flag f).arcs ≡ n + 1 = length-append f.arcs _ in
        record {
          exits = λ b a. rw (exit_arcs-add_arc b) (
              ground (
                arith,
                size,
                arc-add_arc a,
                elem-append a (exit_arcs f src) (n ∷ []),
                w.exits src a,
                w.exits b a,
              ));
          entries = λ b a. rw (entry_arcs-add_arc b) (
              ground (
                arith,
                size,
                arc-add_arc a,
                elem-append a (entry_arcs f dst) (n ∷ []),
                w.entries dst a,
                w.entries b a,
              ));
          exit_distinct = λ b. elim (Bool-cases (src == b)) [
            | inl same ↦
                rw (exit_arcs-add_arc b, same)
                  (Distinct-snoc n (exit_arcs f src) (ground (arith, w.exits src n))
                    (w.exit_distinct src))
            | inr other ↦ rw (exit_arcs-add_arc b, other) (w.exit_distinct b)
          ];
          entry_distinct = λ b. elim (Bool-cases (dst == b)) [
            | inl same ↦
                rw (entry_arcs-add_arc b, same)
                  (Distinct-snoc n (entry_arcs f dst) (ground (arith, w.entries dst n))
                    (w.entry_distinct dst))
            | inr other ↦ rw (entry_arcs-add_arc b, other) (w.entry_distinct b)
          ];
          fresh = λ a. ground (arith, arc-add_arc a, w.fresh a);
        }
