-- ===== src/Library/Vtable/Locate.antt =====
-- utils/python/library/vtable/vtable_dumper.py: `_LocateVtable` finds the vtable that contains an
-- address, where the vtables do not overlap.
use mathlib.Core.Path.{subst}
use test_vts.Base.{
  ℕ, zero, suc, ◌≤◌, ◌<◌, ◌≡◌, refl, ap, ◌↔◌, true, Option, some, List, [], ◌∷◌, arith, leb,
  get_elem?, All,
}
use test_vts.Library.Vtable.{Vtable, bisect, contains, if_contains, before, locate_vtable}
use test_vts.Library.Vtable.Order.{All-get_elem?}
use test_vts.Library.Vtable.Inside.{locate_vtable-Located, Located}

-- In the order of their addresses, each ends before the next begins.
abbrev pub Apart : List Vtable → Type 0
Apart [] = Unit
Apart (v ∷ vs) =
    (v.begin_addr ≤ v.end_addr) × All (λ (w : Vtable). v.end_addr ≤ w.begin_addr) vs × Apart vs

bisect_none :
    (vs : List Vtable) (offset end : ℕ)
    → offset < end
    → All (λ (w : Vtable). end ≤ w.begin_addr) vs
    → bisect vs offset ≡ 0
unfolding bisect
bisect_none [] offset end h g = refl
bisect_none (w ∷ ws) offset end h g = ground (arith, g.0)

bisect-contains :
    (vs : List Vtable) (offset i : ℕ) (v : Vtable)
    → Apart vs
    → get_elem? vs i ≡ some v
    → contains offset v ≡ true
    → bisect vs offset ≡ suc i
unfolding bisect
bisect-contains [] offset i v h e c = cc
bisect-contains (w ∷ ws) offset zero v (hw, above, h) e c =
    let same : w ≡ v = cc in
    let inside : contains offset w ≡ true = rw same c in
    let low : leb w.begin_addr offset ≡ true = ground arith in
    let high : offset < w.end_addr = ground arith in
    rw low (ap suc (bisect_none ws offset w.end_addr high above))
bisect-contains (w ∷ ws) offset (suc i) v (hw, above, h) e c =
    let later = All-get_elem? (λ (x : Vtable). w.end_addr ≤ x.begin_addr) ws i v above e in
    let low : leb w.begin_addr offset ≡ true = ground (arith, later) in
    rw low (ap suc (bisect-contains ws offset i v h e c))

Located-eq :
    (vs : List Vtable) (offset i : ℕ) (v : Vtable) (o : Option (ℕ × Vtable))
    → Located vs offset o
    → o ≡ some (i, v)
    → (get_elem? vs i ≡ some v) × (contains offset v ≡ true)
Located-eq vs offset i v o h e = subst (Located vs offset) e h

-- On vtables in the order of their addresses that do not overlap, _LocateVtable returns a vtable
-- exactly if that vtable is in the list and contains the offset.
pub locate_vtable-contains :
    (vs : List Vtable) (offset i : ℕ) (v : Vtable)
    → Apart vs
    → (locate_vtable vs offset ≡ some (i, v))
      ↔ ((get_elem? vs i ≡ some v) × (contains offset v ≡ true))
unfolding locate_vtable before if_contains
locate_vtable-contains vs offset i v h = (
  Located-eq vs offset i v (locate_vtable vs offset) (locate_vtable-Located vs offset),
  λ (e, c). rw (bisect-contains vs offset i v h e c, e, c) refl,
)
