-- ===== src/Common/ListUtils/Text/Load.antt =====
-- The lines that `LoadListFromCommentedText` of utils/python/common/list_utils.py returns.
use mathlib.Core.List.{append-nil}
use test_vts.Base.{
  ◌≡◌, refl, Bool, true, false, not, ◌||◌, ◌&&◌, List, [], ◌∷◌, ◌++◌, arith, elem, is_empty, All,
  Distinct, map, Bool-cases, inl, inr, if◌then◌else◌,
}
use test_vts.Base.Text.{Str, str_eq_instance}
use test_vts.Common.ListUtils.{unique_from, merge_unique_keep_order, deduplicate_keep_order}
use test_vts.Common.ListUtils.Unique.{merge_unique_keep_order-Distinct}
use test_vts.Common.ListUtils.Text.{
  keep, strip, splitlines, remove_comment, Options, is_comment, collect_lines,
  load_list_from_commented_text,
}

-- What the options ask of a line.
abbrev pub is_fit : Options → Str → Bool
is_fit o line =
    (not o.exclude_empty_line || not (is_empty line))
    && (not o.exclude_comment_line || not (is_comment o.comment_char line))

abbrev Passing : (Str → Bool) → List Str → Type 0
Passing test lines = All (λ line. test line ≡ true) lines

keep-Passing : (test : Str → Bool) (lines : List Str) → Passing test (keep test lines)
keep-Passing test [] = tt
keep-Passing test (x ∷ xs) = elim (Bool-cases (test x)) [
  | inl passes ↦ rw passes (passes, keep-Passing test xs)
  | inr fails ↦ rw fails (keep-Passing test xs)
]

Passing-keep :
    (test other : Str → Bool) (lines : List Str)
    → Passing other lines
    → Passing other (keep test lines)
Passing-keep test other [] h = tt
Passing-keep test other (x ∷ xs) h = elim (Bool-cases (test x)) [
  | inl passes ↦ rw passes (h.0, Passing-keep test other xs h.1)
  | inr fails ↦ rw fails (Passing-keep test other xs h.1)
]

Passing-unique_from :
    (test : Str → Bool) (seen lines : List Str)
    → Passing test lines
    → Passing test (unique_from seen lines)
unfolding unique_from
Passing-unique_from test seen [] h = tt
Passing-unique_from test seen (x ∷ xs) h = elim (Bool-cases (elem x seen)) [
  | inl old ↦ rw old (Passing-unique_from test seen xs h.1)
  | inr new ↦ rw new (h.0, Passing-unique_from test (x ∷ seen) xs h.1)
]

-- A stage that is switched on by a flag.
stage-Passing :
    (flag : Bool) (test : Str → Bool) (lines : List Str)
    → Passing (λ line. not flag || test line) (if flag then keep test lines else lines)
stage-Passing true test lines = keep-Passing test lines
stage-Passing false test [] = tt
stage-Passing false test (x ∷ xs) = (refl, stage-Passing false test xs)

Passing-stage :
    (flag : Bool) (test other : Str → Bool) (lines : List Str)
    → Passing other lines
    → Passing other (if flag then keep test lines else lines)
Passing-stage true test other lines h = Passing-keep test other lines h
Passing-stage false test other lines h = h

Passing-deduplicated :
    (flag : Bool) (other : Str → Bool) (lines : List Str)
    → Passing other lines
    → Passing other (if flag then deduplicate_keep_order lines else lines)
unfolding deduplicate_keep_order merge_unique_keep_order
Passing-deduplicated true other lines h =
    Passing-unique_from other [] (lines ++ []) (rw (append-nil lines) h)
Passing-deduplicated false other lines h = h

Passing-both :
    (p q : Str → Bool) (lines : List Str)
    → Passing p lines
    → Passing q lines
    → Passing (λ line. p line && q line) lines
Passing-both p q [] h k = tt
Passing-both p q (x ∷ xs) h k = (ground (arith, h.0, k.0), Passing-both p q xs h.1 k.1)

Distinct-deduplicated :
    (flag : Bool) (lines : List Str)
    → if flag then Distinct (if flag then deduplicate_keep_order lines else lines) else Unit {0}
unfolding deduplicate_keep_order
Distinct-deduplicated true lines = (merge_unique_keep_order-Distinct (lines ∷ [])).0
Distinct-deduplicated false lines = tt

-- No line that is returned is empty or, once its comment is cut, a comment line if such lines are
-- excluded, and no line is returned twice if duplicates are.
pub load_list_from_commented_text-fit :
    (text : Str) (o : Options)
    → All (λ line. is_fit o line ≡ true) (load_list_from_commented_text text o)
      × (if o.remove_duplicates then Distinct (load_list_from_commented_text text o) else Unit {0})
unfolding load_list_from_commented_text collect_lines
load_list_from_commented_text-fit text o =
    let lines = splitlines (not o.remove_line_breaks) text in
    let cut =
      if o.exclude_trailing_comment then map (remove_comment o.comment_char) lines else lines in
    let stripped = if o.to_strip then map strip cut else cut in
    let not_comment : Str → Bool = λ line. not (is_comment o.comment_char line) in
    let not_empty : Str → Bool = λ line. not (is_empty line) in
    let code = if o.exclude_comment_line then keep not_comment stripped else stripped in
    let full = if o.exclude_empty_line then keep not_empty code else code in
    let fits : Passing (is_fit o) full =
      Passing-both (λ line. not o.exclude_empty_line || not_empty line)
        (λ line. not o.exclude_comment_line || not_comment line) full
        (stage-Passing o.exclude_empty_line not_empty code)
        (Passing-stage o.exclude_empty_line not_empty
          (λ line. not o.exclude_comment_line || not_comment line) code
          (stage-Passing o.exclude_comment_line not_comment stripped)) in
    (
      Passing-deduplicated o.remove_duplicates (is_fit o) full fits,
      Distinct-deduplicated o.remove_duplicates full,
    )
