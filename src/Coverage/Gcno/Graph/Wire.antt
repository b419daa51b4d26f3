-- ===== src/Coverage/Gcno/Graph/Wire.antt =====
-- Each kind of section of utils/python/coverage/gcno_parser.py keeps the graph of the current
-- function well formed.
use test_vts.Base.{
  ℕ, zero, suc, ◌+◌, ◌≡◌, refl, true, List, [], ◌∷◌, ◌++◌, some, arith, ltb, length, get_or, set,
  All, nat_eq,
}
use test_vts.Base.Arrays.{get_or-set}
use test_vts.Base.Text.{Str}
use test_vts.Coverage.Stream.{Bytes, Big}
use test_vts.Coverage.Summary.{Function, Block, new_arc, new_block, new_function}
use test_vts.Coverage.Resolve.{arc, entry_arcs, exit_arcs, no_block}
use test_vts.Coverage.Gcno.{
  read_function, read_blocks, section_blocks, add_arc, read_arcs, section_arcs, section_lines,
}
use test_vts.Coverage.Yields.{Yields, Yields-ok, Yields-raise, Yields-if, Yields-then, Yields-bind}
use test_vts.Coverage.Gcno.Graph.{IsWired, IsWired-add_arc, length-add_arc}

-- Where the blocks differ in nothing that concerns arcs.
IsWired-same :
    (f g : Function)
    → f.arcs ≡ g.arcs
    → ((b : ℕ) → (exit_arcs g b ≡ exit_arcs f b) × (entry_arcs g b ≡ entry_arcs f b))
    → IsWired f
    → IsWired g
unfolding arc
IsWired-same f g arcs same w = record {
  exits = λ b a. ground (arith, w.exits b a, same b);
  entries = λ b a. ground (arith, w.entries b a, same b);
  exit_distinct = λ b. rw ((same b).0) (w.exit_distinct b);
  entry_distinct = λ b. rw ((same b).1) (w.entry_distinct b);
  fresh = λ a. ground (arith, w.fresh a);
}

pub IsWired-new_function :
    (ident : ℕ) (name file : Str) (line : ℕ) → IsWired (new_function ident name file line)
unfolding new_function arc exit_arcs entry_arcs new_arc new_block
IsWired-new_function ident name file line = record {
  exits = λ b a. ground arith;
  entries = λ b a. ground arith;
  exit_distinct = λ b. tt;
  entry_distinct = λ b. tt;
  fresh = λ a. (refl, refl);
}

abbrev pub HasNoArcs : Block → Type 0
HasNoArcs b = (b.exit_arcs ≡ []) × (b.entry_arcs ≡ [])

read_blocks-HasNoArcs :
    (big : Big) (left index : ℕ) (s : Bytes) → Yields (All HasNoArcs) (read_blocks big left index s)
unfolding read_blocks new_block
read_blocks-HasNoArcs big zero index s = Yields-ok (All HasNoArcs) [] s tt
read_blocks-HasNoArcs big (suc left) index s = Yields-then (All HasNoArcs) _ _ (λ (flag, s₁).
    Yields-bind (All HasNoArcs) (All HasNoArcs) _ _ (read_blocks-HasNoArcs big left (index + 1) s₁)
      (λ blocks s₂ h. Yields-ok (All HasNoArcs) _ s₂ ((refl, refl), h)))

get_or-append :
    (xs ys : List Block) (b : ℕ)
    → All HasNoArcs ys
    → ((get_or (xs ++ ys) b no_block).exit_arcs ≡ (get_or xs b no_block).exit_arcs)
      × ((get_or (xs ++ ys) b no_block).entry_arcs ≡ (get_or xs b no_block).entry_arcs)
unfolding new_block
get_or-append [] [] b h = (refl, refl)
get_or-append [] (y ∷ ys) zero h = h.0
get_or-append [] (y ∷ ys) (suc b) h = get_or-append [] ys b h.1
get_or-append (x ∷ xs) ys zero h = (refl, refl)
get_or-append (x ∷ xs) ys (suc b) h = get_or-append xs ys b h

pub IsWired-read_function :
    (big : Big) (version : Str) (s : Bytes) → Yields IsWired (read_function big version s)
unfolding read_function
IsWired-read_function big version s = search (Yields-then, Yields-ok, IsWired-new_function) depth 20

-- Blocks that are appended before they have arcs.
pub IsWired-append :
    (f : Function) (blocks : List Block)
    → IsWired f
    → All HasNoArcs blocks
    → IsWired (record f { blocks = f.blocks ++ blocks })
unfolding exit_arcs entry_arcs
IsWired-append f blocks w h = IsWired-same f _ refl (λ b. get_or-append f.blocks blocks b h) w

pub IsWired-section_blocks :
    (big : Big) (len : ℕ) (f : Function) (s : Bytes)
    → IsWired f
    → Yields IsWired (section_blocks big len (some f) s)
unfolding section_blocks
IsWired-section_blocks big len f s w =
    Yields-bind IsWired (All HasNoArcs) _ _ (read_blocks-HasNoArcs big len 0 s)
      (λ blocks s₁ h. Yields-ok IsWired _ s₁ (IsWired-append f blocks w h))

IsWired-read_arcs :
    (big : Big) (left src : ℕ) (f : Function) (s : Bytes)
    → ltb src (length f.blocks) ≡ true
    → IsWired f
    → Yields IsWired (read_arcs big left src f s)
unfolding read_arcs
IsWired-read_arcs big zero src f s lt w = Yields-ok IsWired f s w
IsWired-read_arcs big (suc left) src f s lt w =
    let next : (dst flag : ℕ) (t : Bytes)
        → ltb dst (length f.blocks) ≡ true
        → Yields IsWired (read_arcs big left src (add_arc src dst flag f) t) =
      λ dst flag t inside.
        IsWired-read_arcs big left src (add_arc src dst flag f) t
          (rw (length-add_arc f src dst flag) lt)
          (IsWired-add_arc f src dst flag (ground arith) (ground arith) w) in
    search (Yields-then, Yields-if, Yields-raise, next) depth 20

pub IsWired-section_arcs :
    (big : Big) (len : ℕ) (f : Function) (s : Bytes)
    → IsWired f
    → Yields IsWired (section_arcs big len (some f) s)
unfolding section_arcs
IsWired-section_arcs big len f s w =
    search (Yields-then, Yields-if, Yields-raise, IsWired-read_arcs) depth 20

set_lines-arcs :
    (bs : List Block) (b : ℕ) (lines : List ℕ) (c : ℕ)
    → ((get_or (set bs b (record (get_or bs b no_block) { lines = lines })) c no_block).exit_arcs
        ≡ (get_or bs c no_block).exit_arcs)
      × ((get_or (set bs b (record (get_or bs b no_block) { lines = lines })) c no_block).entry_arcs
          ≡ (get_or bs c no_block).entry_arcs)
set_lines-arcs bs b lines c =
    ground (arith, get_or-set bs b c (record (get_or bs b no_block) { lines = lines }) no_block)

IsWired-set_lines :
    (f : Function) (b : ℕ) (lines : List ℕ)
    → IsWired f
    → IsWired (record f {
      blocks = set f.blocks b (record (get_or f.blocks b no_block) { lines = lines });
    })
unfolding exit_arcs entry_arcs
IsWired-set_lines f b lines w = IsWired-same f _ refl (set_lines-arcs f.blocks b lines) w

pub IsWired-section_lines :
    (big : Big) (len : ℕ) (f : Function) (s : Bytes)
    → IsWired f
    → Yields IsWired (section_lines big len (some f) s)
unfolding section_lines
IsWired-section_lines big len f s w =
    search (Yields-then, Yields-if, Yields-raise, Yields-ok, IsWired-set_lines) depth 20
