-- ===== src/Common/ListUtils/Text/Comments.antt =====
-- Which comment lines `LoadListFromCommentedText` of utils/python/common/list_utils.py leaves out.
use test_vts.Base.{
  ℕ, ◌≡◌, refl, sym, ap, ◌∙◌, Bool, true, false, not, ◌&&◌, List, [], ◌∷◌, ◌++◌, ◌==◌, arith, elem,
  is_empty, All, Distinct, map, Bool-cases, inl, inr, if◌then◌else◌,
}
use test_vts.Base.Text.{
  Str, starts_with, starts_with-append, str_eq, str_eq_refl, str_eq_to, str_eq_instance,
}
use test_vts.Common.ListUtils.{deduplicate_keep_order}
use test_vts.Common.ListUtils.Unique.{deduplicate_unique, elem-unique_from}
use test_vts.Common.ListUtils.Text.Load.{is_fit, load_list_from_commented_text-fit}
use test_vts.Common.ListUtils.Text.{
  keep, is_space, strip, lstrip, rstrip, splitlines, find, remove_comment, Options, is_comment,
  collect_lines, load_list_from_commented_text,
}

starts_with-glued :
    (d c : ℕ) (p t : Str)
    → starts_with (d ∷ p) (elim t [ [] ↦ if is_space c then [] else c ∷ [] | e ∷ r ↦ c ∷ e ∷ r ])
      ≡ true
    → ((d == c) ≡ true) × (starts_with p t ≡ true)
starts_with-glued d c p [] h = ground arith
starts_with-glued d c p (e ∷ r) h = ground arith

starts_with-rstrip : (p s : Str) → starts_with p (rstrip s) ≡ true → starts_with p s ≡ true
unfolding rstrip
starts_with-rstrip [] s h = refl
starts_with-rstrip (d ∷ p) [] h = h
starts_with-rstrip (d ∷ p) (c ∷ s) h =
    let glued = starts_with-glued d c p (rstrip s) h in
    ground (arith, glued, starts_with-rstrip p s glued.1)

remove_comment-cons :
    (comment_char line : Str) (c : ℕ)
    → starts_with comment_char (c ∷ line) ≡ false
    → remove_comment comment_char (c ∷ line) ≡ c ∷ remove_comment comment_char line
unfolding remove_comment find
remove_comment-cons mark line c h = ground (arith, h)

remove_comment-here :
    (comment_char line : Str)
    → starts_with comment_char line ≡ true
    → remove_comment comment_char line ≡ []
unfolding remove_comment find
remove_comment-here [] [] h = refl
remove_comment-here (d ∷ mark) [] h = refl
remove_comment-here mark (c ∷ line) h = ground (arith, h)

-- What stands before a comment that begins a line is white space.
lstrip-remove_comment :
    (comment_char line : Str)
    → starts_with comment_char (lstrip line) ≡ true
    → lstrip (remove_comment comment_char line) ≡ []
unfolding lstrip
lstrip-remove_comment mark [] h = rw (remove_comment-here mark [] h) refl
lstrip-remove_comment mark (c ∷ line) h = elim (Bool-cases (starts_with mark (c ∷ line))) [
  | inl here ↦ rw (remove_comment-here mark (c ∷ line) here) refl
  | inr later ↦
      ground (arith, remove_comment-cons mark line c later, lstrip-remove_comment mark line)
]

is_comment-strip :
    (comment_char line : Str)
    → is_comment comment_char line ≡ true
    → strip (remove_comment comment_char line) ≡ []
unfolding strip
is_comment-strip mark line h =
    ap rstrip (lstrip-remove_comment mark line (starts_with-rstrip mark (lstrip line) h))
    ∙ unfold rstrip in refl

-- The lines that are left of others, with comments cut and the rest stripped.
cut_lines : Str → List Str → List Str
cut_lines comment_char lines =
    keep (λ line. not (is_empty line))
      (keep (λ line. not (is_comment comment_char line))
        (map strip (map (remove_comment comment_char) lines)))

-- A line that is shown.
shows : Str → Str → Bool
shows comment_char line = not (is_comment comment_char line) && not (is_empty line)

cut_lines-cons :
    (comment_char line : Str) (lines : List Str)
    → let cut = strip (remove_comment comment_char line) in
      cut_lines comment_char (line ∷ lines) ≡ (
        if shows comment_char cut
        then cut ∷ cut_lines comment_char lines
        else cut_lines comment_char lines)
unfolding cut_lines shows
cut_lines-cons mark line lines = ground arith

shows-empty : (comment_char : Str) → shows comment_char [] ≡ false
unfolding shows
shows-empty mark = ground arith

cut_lines-comments :
    (comment_char : Str) (lines : List Str)
    → cut_lines comment_char (keep (λ line. not (is_comment comment_char line)) lines)
      ≡ cut_lines comment_char lines
cut_lines-comments mark [] = refl
cut_lines-comments mark (line ∷ lines) =
    let ih = cut_lines-comments mark lines in
    let step = cut_lines-cons mark line lines in
    elim (Bool-cases (is_comment mark line)) [
      | inl comment ↦
          let hidden : shows mark (strip (remove_comment mark line)) ≡ false =
            ap (shows mark) (is_comment-strip mark line comment) ∙ shows-empty mark in
          rw comment (ground (arith, ih, step, hidden))
      | inr code ↦
          let kept = keep (λ l. not (is_comment mark l)) lines in
          rw code (ground (arith, ih, step, cut_lines-cons mark line kept))
    ]

-- With comments cut, lines stripped, and comment lines and empty lines excluded, as by default, the
-- comment lines of a text leave no trace: the result is that of the other lines. A comment line
-- begins with the mark of a comment after white space. No line of the result is empty or such a line,
-- and none is there twice if duplicates are removed.
pub load_list_from_commented_text-comments :
    (text : Str) (o : Options)
    → o.exclude_trailing_comment ≡ true
    → o.to_strip ≡ true
    → o.exclude_comment_line ≡ true
    → o.exclude_empty_line ≡ true
    → let lines = splitlines (not o.remove_line_breaks) text in
      let code = keep (λ line. not (is_comment o.comment_char line)) lines in
      let result = load_list_from_commented_text text o in
      (result ≡ collect_lines o code)
      × All (λ line. is_fit o line ≡ true) result
      × (if o.remove_duplicates then Distinct result else Unit {0})
load_list_from_commented_text-comments text o cuts strips comments empties =
    let lines = splitlines (not o.remove_line_breaks) text in
    let fit = load_list_from_commented_text-fit text o in
    (
      unfold load_list_from_commented_text collect_lines in
          rw (cuts, strips, comments, empties)
            (ap (λ (l : List Str). if o.remove_duplicates then deduplicate_keep_order l else l)
              (unfold cut_lines in sym (cut_lines-comments o.comment_char lines))),
      fit.0,
      fit.1,
    )

elem-keep :
    (test : Str → Bool) (x : Str) (l : List Str)
    → test x ≡ true
    → elem x l ≡ true
    → elem x (keep test l) ≡ true
elem-keep test x [] h k = k
elem-keep test x (y ∷ l) h k =
    let e : str_eq x y ≡ true → test y ≡ true = λ p. ap test (sym (str_eq_to x y p)) ∙ h in
    ground (arith, e, elem-keep test x l h)

elem-map :
    (f : Str → Str) (x : Str) (before after : List Str)
    → elem (f x) (map f (before ++ x ∷ after)) ≡ true
elem-map f x [] after = ground (arith, str_eq_refl (f x))
elem-map f x (y ∷ before) after = ground (arith, elem-map f x before after)

abbrev IsBlank : Str → Type 0
IsBlank blank = All (λ c. is_space c ≡ true) blank

lstrip-blank : (blank : Str) → IsBlank blank → lstrip blank ≡ []
unfolding lstrip
lstrip-blank [] h = refl
lstrip-blank (c ∷ blank) h = ground (arith, h.0, lstrip-blank blank h.1)

remove_comment-blank :
    (blank rest mark : Str) (d : ℕ)
    → IsBlank blank
    → is_space d ≡ false
    → remove_comment (d ∷ mark) (blank ++ (d ∷ mark) ++ rest) ≡ blank
remove_comment-blank [] rest mark d h k =
    remove_comment-here (d ∷ mark) ((d ∷ mark) ++ rest) (starts_with-append (d ∷ mark) rest)
remove_comment-blank (c ∷ blank) rest mark d h k =
    let line = blank ++ (d ∷ mark) ++ rest in
    let other : starts_with (d ∷ mark) (c ∷ line) ≡ false = ground (arith, h.0, k) in
    remove_comment-cons (d ∷ mark) line c other
    ∙ ap (λ s. c ∷ s) (remove_comment-blank blank rest mark d h.1 k)

deduplicate-elem :
    (x : Str) (flag : Bool) (l : List Str)
    → elem x l ≡ true
    → elem x (if flag then deduplicate_keep_order l else l) ≡ true
deduplicate-elem x false l h = h
deduplicate-elem x true l h =
    ap (λ m. elem x m) (deduplicate_unique l) ∙ ground (arith, elem-unique_from x [] l, h)

-- Without stripping, a comment line that begins with white space is not left out where comments are
-- cut: whatever lines stand around it, its white space is in the result, with comment lines and empty
-- lines excluded. The mark of a comment is one that does not begin with white space.
pub collect_lines-blank :
    (o : Options) (blank rest mark : Str) (c d : ℕ) (before after : List Str)
    → o.exclude_trailing_comment ≡ true
    → o.to_strip ≡ false
    → o.exclude_comment_line ≡ true
    → o.exclude_empty_line ≡ true
    → o.comment_char ≡ d ∷ mark
    → is_space d ≡ false
    → All (λ x. is_space x ≡ true) (c ∷ blank)
    → elem (c ∷ blank) (collect_lines o (before ++ ((c ∷ blank) ++ (d ∷ mark) ++ rest) ∷ after))
      ≡ true
unfolding collect_lines
collect_lines-blank o blank rest mark c d before after cuts strips comments empties e k h =
    let x = c ∷ blank in
    let line = x ++ (d ∷ mark) ++ rest in
    let bare : strip x ≡ [] = unfold strip rstrip in ap rstrip (lstrip-blank x h) in
    let no_comment : not (is_comment (d ∷ mark) x) ≡ true =
      ap (λ s. not (starts_with (d ∷ mark) s)) bare in
    let cut : elem x (map (remove_comment (d ∷ mark)) (before ++ line ∷ after)) ≡ true =
      ap (λ y. elem y (map (remove_comment (d ∷ mark)) (before ++ line ∷ after)))
        (sym (remove_comment-blank x rest mark d h k))
      ∙ elem-map (remove_comment (d ∷ mark)) line before after in
    let trimmed = map (remove_comment (d ∷ mark)) (before ++ line ∷ after) in
    let code = keep (λ l. not (is_comment (d ∷ mark) l)) trimmed in
    rw (cuts, strips, comments, empties, e)
      (deduplicate-elem x o.remove_duplicates (keep (λ l. not (is_empty l)) code) (
        elem-keep (λ l. not (is_empty l)) x code refl
          (elem-keep (λ l. not (is_comment (d ∷ mark) l)) x trimmed no_comment cut)))
