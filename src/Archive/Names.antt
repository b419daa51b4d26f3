-- ===== src/Archive/Names.antt =====
-- utils/python/archive/archive_parser.py: what the name field of a member means, and what `ReadFile`
-- makes of it.
use mathlib.Core.List.{}
use test_vts.Base.{
  ℕ, ◌≡◌, ◌≢◌, ◌-◌, take, take-length-append, length-append, Bool-cases, inl, inr, refl, sym, ap,
  ◌∙◌, not, Bool, true, false, Option, none, some, List, [], ◌∷◌, ◌++◌, arith, length,
}
use test_vts.Base.Text.{
  Str, codes, starts_with, ends_with, ends_with-append, str_eq, str_eq_to, str_eq_instance,
}
use test_vts.Common.ListUtils.Text.{strip}
use test_vts.Base.Int.{pos}
use test_vts.Library.Result.{ok}
use test_vts.Library.Ar.{int}
use test_vts.Archive.{Archive, look_up, store_file, named_at, store_content}
use test_vts.Archive.Dictionaries.{table_text}
use test_vts.Archive.Members.{Member}

-- What the name field of a member means beside a table of long names: the file of a name, or `none`,
-- the table of symbols. A short name is written as it is or with a slash at its end; a long name is
-- a slash and the offset in the table at which the name begins.
pub data Means (names : Option (List Str)) (m : Member) : Option Str → Type 0 where
  terminated :
      (name : Str)
      → strip m.name ≡ name ++ codes "/"
      → str_eq name (codes "/") ≡ false
      → Means names m (some name)
  plain :
      (name : Str)
      → strip m.name ≡ name
      → starts_with (codes "/") name ≡ false
      → ends_with (codes "/") name ≡ false
      → str_eq name (codes "__.SYMDEF") ≡ false
      → Means names m (some name)
  long :
      (before after : List Str) (name digits : Str)
      → names ≡ some (before ++ name ∷ after)
      → strip m.name ≡ codes "/" ++ digits
      → ends_with (codes "/") (codes "/" ++ digits) ≡ false
      → int digits ≡ ok (pos (length (table_text before)))
      → Means names m (some name)
  symbols : strip m.name ≡ codes "__.SYMDEF" → Means names m none

-- A dictionary of the names' offsets.
unfoldable pub Holds : Option (List Str) → List (ℕ × Str) → Type 0
Holds names dict =
    (before after : List Str) (name : Str)
    → names ≡ some (before ++ name ∷ after)
    → look_up (length (table_text before)) dict ≡ some name

pub none-Holds : (dict : List (ℕ × Str)) → Holds none dict
unfolding Holds
none-Holds dict before after name h = cc

unfoldable pub filed : Option Str → Str → Archive → Archive
filed none content a = a
filed (some name) content a = store_file name content a

not_table :
    (name : Str) → str_eq name (codes "/") ≡ false → str_eq (name ++ codes "/") (codes "//") ≡ false
not_table [] h = refl
not_table (c ∷ []) h = ground (arith, h)
not_table (c ∷ d ∷ []) h = ground arith
not_table (c ∷ d ∷ x ∷ s) h = ground arith

not_self : (b : Bool) → b ≢ not b
not_self true h = cc
not_self false h = cc

-- A text that ends otherwise is another one.
ends_apart :
    (s t : Str) (b : Bool)
    → ends_with (codes "/") s ≡ b
    → ends_with (codes "/") t ≡ not b
    → str_eq s t ≡ false
ends_apart s t b hs ht = elim (Bool-cases (str_eq s t)) [
  | inl same ↦
      let e = ap (λ x. ends_with (codes "/") x) (str_eq_to s t same) in
      absurd (not_self b (sym hs ∙ e ∙ ht))
  | inr apart ↦ apart
]

named_at-some :
    (offset : ℕ) (dict : List (ℕ × Str)) (name : Str)
    → look_up offset dict ≡ some name
    → named_at (pos offset) dict ≡ ok name
unfolding named_at
named_at-some offset dict name h = rw (named_at, h) refl

pub store_content-Means :
    (names : Option (List Str)) (m : Member) (meaning : Option Str) (a : Archive)
    → Holds names a.string_table
    → Means names m meaning
    → store_content (strip m.name) m.content a ≡ ok (filed meaning m.content a)
unfolding store_content filed Holds
store_content-Means names m _ a holds (terminated name e h) =
    let s = name ++ codes "/" in
    let ends : ends_with (codes "/") s ≡ true = ends_with-append (codes "/") name in
    let other : str_eq s (codes "__.SYMDEF") ≡ false =
      ends_apart s (codes "__.SYMDEF") true ends refl in
    let size : length s - 1 ≡ length name = omega (arith, length-append name (codes "/")) in
    let short : take (length s - 1) s ≡ name =
      ap (λ k. take k s) size ∙ take-length-append name (codes "/") in
    ap (λ k. store_content k m.content a) e
    ∙ rw (not_table name h, other, ends) (ap (λ k. ok (store_file k m.content a)) short)
store_content-Means names m _ a holds (plain name e h₁ h₂ h₃) =
    let other : str_eq name (codes "//") ≡ false = ends_apart name (codes "//") false h₂ refl in
    ap (λ k. store_content k m.content a) e ∙ rw (other, h₃, h₂, h₁) refl
store_content-Means names m _ a holds (long before after name digits e₁ e h e₂) =
    let s = codes "/" ++ digits in
    let table : str_eq s (codes "//") ≡ false = ends_apart s (codes "//") false h refl in
    let found : named_at (pos (length (table_text before))) a.string_table ≡ ok name =
      named_at-some _ a.string_table name (holds before after name e₁) in
    ap (λ k. store_content k m.content a) e ∙ rw (table, h, e₂, found) refl
store_content-Means names m _ a holds (symbols e) = ap (λ k. store_content k m.content a) e
