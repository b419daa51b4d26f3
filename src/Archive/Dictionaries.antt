-- ===== src/Archive/Dictionaries.antt =====
-- utils/python/archive/archive_parser.py: the dictionaries of files and of long names.
use test_vts.Base.{
  ℕ, ◌+◌, ◌<◌, ◌≡◌, refl, sym, ap, ◌∙◌, true, false, Option, none, some, List, [], ◌∷◌, ◌++◌, arith,
  ◌==◌, length, length-append, elem, All, nat_eq, Bool-cases, inl, inr, if◌then◌else◌,
}
use test_vts.Base.Text.{Str, str_eq, str_eq_to, str_eq_instance}
use test_vts.Common.ListUtils.Text.{split}
use test_vts.Archive.{string_table_terminator, assign, look_up, store_names}

-- `d[key]`, where there is one
abbrev pub entry_of : Str → List (Str × Str) → Option Str
entry_of key [] = none
entry_of key ((k, v) ∷ d) = let rest = entry_of key d in if str_eq k key then some v else rest

pub entry_of-assign :
    (key k v : Str) (d : List (Str × Str))
    → entry_of key (assign k v d) ≡ (if str_eq k key then some v else entry_of key d)
unfolding assign
entry_of-assign key k v [] = ground arith
entry_of-assign key k v ((k', v') ∷ d) = elim (Bool-cases (str_eq k' k)) [
  | inl same ↦
      let e : str_eq k' key ≡ str_eq k key = ap (λ x. str_eq x key) (str_eq_to k' k same) in
      ground (arith, e)
  | inr other ↦
      let apart : str_eq k key ≡ true → str_eq k' key ≡ false =
        λ h. ap (λ x. str_eq k' x) (sym (str_eq_to k key h)) ∙ other in
      ground (arith, apart, entry_of-assign key k v d)
]

look_up-assign :
    (key k : ℕ) (v : Str) (d : List (ℕ × Str))
    → look_up key (assign k v d) ≡ (if k == key then some v else look_up key d)
unfolding look_up assign
look_up-assign key k v [] = ground arith
look_up-assign key k v ((k', v') ∷ d) = ground (arith, look_up-assign key k v d)

-- The text of a table of long names. A name in it holds no line break.
abbrev pub table_text : List Str → Str
table_text [] = []
table_text (name ∷ names) = name ++ (string_table_terminator ++ table_text names)

abbrev pub IsLine : Str → Type 0
IsLine name = elem 10 name ≡ false

split-line :
    (name rest : Str)
    → IsLine name
    → split string_table_terminator 0 (name ++ (string_table_terminator ++ rest))
      ≡ (name, (split string_table_terminator 0 rest).0 ∷ (split string_table_terminator 0 rest).1)
unfolding split
split-line [] rest h = refl
split-line (c ∷ []) rest h = ground (arith, split-line [] rest refl)
split-line (c ∷ d ∷ name) rest h =
    let tail : IsLine (d ∷ name) = ground arith in ground (arith, split-line (d ∷ name) rest tail)

pub split-table_text :
    (names : List Str)
    → All IsLine names
    → let parts = split string_table_terminator 0 (table_text names) in
      (parts.0 ∷ parts.1) ≡ names ++ [] ∷ []
split-table_text [] h = unfold split in refl
split-table_text (name ∷ names) h =
    rw (split-line name (table_text names) h.0) (ap (λ l. name ∷ l) (split-table_text names h.1))

-- A name that begins further on does not change an entry.
store_names-before :
    (names : List Str) (acc offset : ℕ) (table : List (ℕ × Str))
    → offset < acc
    → look_up offset (store_names acc names table) ≡ look_up offset table
unfolding store_names
store_names-before [] acc offset table h = refl
store_names-before (name ∷ names) acc offset table h = ground (
  arith,
  store_names-before names (acc + (length name + 2)) offset (assign acc name table),
  look_up-assign offset acc name table,
)

-- Each name stands at the offset where it begins in the text of the table.
pub store_names-at :
    (before after : List Str) (name : Str) (acc : ℕ) (table : List (ℕ × Str))
    → look_up (acc + length (table_text before)) (store_names acc (before ++ name ∷ after) table)
      ≡ some name
unfolding store_names
store_names-at [] after name acc table =
    let here : acc + 0 ≡ acc = omega arith in
    rw here (
      ground (
        arith,
        store_names-before after (acc + (length name + 2)) acc (assign acc name table),
        look_up-assign acc acc name table,
      ))
store_names-at (b ∷ before) after name acc table =
    let next = acc + (length b + 2) in
    let e : acc + length (table_text (b ∷ before)) ≡ next + length (table_text before) = omega (
      arith,
      length-append b (string_table_terminator ++ table_text before),
      length-append string_table_terminator (table_text before),
    ) in
    ap (λ k. look_up k (store_names next (before ++ name ∷ after) (assign acc b table))) e
    ∙ store_names-at before after name next (assign acc b table)
