-- ===== src/Common/Filter/Appendix.antt =====
-- Where an appendix goes: `ExpandAppendix` of utils/python/common/filter_utils.py, as a function and
-- as the method of `Filter`.
use mathlib.Core.Path.{subst}
use mathlib.Core.Option.{some-injective}
use test_vts.Base.{
  >>=-eq-some, ℕ, zero, suc, ◌-◌, ◌≤◌, ◌≡◌, ap, ◌⊎◌, inl, inr, Bool, true, false, List, [], ◌∷◌,
  ◌++◌, some, arith, All, length, take, drop, Bool-cases, if◌then◌else◌,
}
use test_vts.Base.Text.{Str, str_eq, str_eq_to, ends_with}
use test_vts.Common.Filter.Patterns.{
  Regex, suffix_32bit, suffix_64bit, has_bitness, appendix_position, insert_each, stays_whole,
  expand_appendix,
}

ends_with-prepend : (p s t : Str) → ends_with p t ≡ true → ends_with p (s ++ t) ≡ true
ends_with-prepend p [] t h = h
ends_with-prepend p (c ∷ s) t h = ground (arith, ends_with-prepend p s t)

ends_with-drop :
    (p : Str) (pos : ℕ) (s : Str)
    → ends_with p s ≡ true
    → pos ≤ length s - length p
    → ends_with p (drop pos s) ≡ true
ends_with-drop p zero s h le = h
ends_with-drop p (suc pos) [] h le = absurd (omega arith)
ends_with-drop p (suc pos) (c ∷ s) h le = elim (Bool-cases (str_eq p (c ∷ s))) [
  | inl same ↦ absurd (omega (arith, ap length (str_eq_to p (c ∷ s) same)))
  | inr other ↦ ends_with-drop p pos s (rw other at h) (omega arith)
]

abbrev pub IsBitness : Str → Type 0
IsBitness suffix = (suffix ≡ suffix_32bit) ⊎ (suffix ≡ suffix_64bit)

position-le :
    (suffix item : Str)
    → IsBitness suffix
    → ends_with suffix item ≡ true
    → appendix_position item ≤ length item - length suffix
unfolding appendix_position has_bitness
position-le suffix item b h = ground arith

abbrev pub Ends : Str → Str → Type 0
Ends suffix item = ends_with suffix item ≡ true

insert_each-Ends :
    (suffix item : Str) (pos : ℕ) (appendices : List Str)
    → ends_with suffix item ≡ true
    → pos ≤ length item - length suffix
    → All (Ends suffix) (insert_each item pos appendices)
unfolding insert_each
insert_each-Ends suffix item pos [] h le = tt
insert_each-Ends suffix item pos (a ∷ rest) h le = (
  ends_with-prepend suffix (take pos item ++ a) _ (ends_with-drop suffix pos item h le),
  insert_each-Ends suffix item pos rest h le,
)

abbrev forms : Bool → Str → List Str → List Str
forms whole item appendices =
    if whole then item ∷ [] else insert_each item (appendix_position item) appendices

forms-Ends :
    (suffix item : Str) (appendices : List Str)
    → IsBitness suffix
    → ends_with suffix item ≡ true
    → (whole : Bool) → All (Ends suffix) (forms whole item appendices)
forms-Ends suffix item appendices b h true = (h, tt)
forms-Ends suffix item appendices b h false =
    insert_each-Ends suffix item _ appendices h (position-le suffix item b h)

-- The same of the items of two lists that are joined.
Ends-append :
    (suffix : Str) (front back : List Str)
    → All (Ends suffix) back
    → All (Ends suffix) front
    → All (Ends suffix) (front ++ back)
Ends-append suffix [] back all_back all_front = all_back
Ends-append suffix (item ∷ front) back all_back (first, all_front) =
    (first, Ends-append suffix front back all_back all_front)

-- Every item that the expansion of items with one bitness yields has that bitness, still at its end.
pub expand_appendix-Ends :
    (re : Regex) (suffix : Str) (items appendices : List Str) (pattern : Str) (out : List Str)
    → IsBitness suffix
    → All (Ends suffix) items
    → expand_appendix re items appendices pattern ≡ some out
    → All (Ends suffix) out
unfolding expand_appendix
expand_appendix-Ends re suffix [] appendices pattern out b h e =
    subst (All (Ends suffix)) (some-injective _ _ e) tt
expand_appendix-Ends re suffix (item ∷ items) appendices pattern out b h e =
    let (whole, _, e₁) = >>=-eq-some (stays_whole re pattern item) _ e in
    let (expanded, rest, e₂) = >>=-eq-some (expand_appendix re items appendices pattern) _ e₁ in
    subst (All (Ends suffix)) (some-injective _ _ e₂) (
      Ends-append suffix (forms whole item appendices) expanded
        (expand_appendix-Ends re suffix items appendices pattern expanded b h.1 rest)
        (forms-Ends suffix item appendices b h.0 whole))
