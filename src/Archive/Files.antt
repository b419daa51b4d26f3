-- ===== src/Archive/Files.antt =====
-- utils/python/archive/archive_parser.py: under which names `Parse` files the members of an archive.
use mathlib.Core.Path.{subst}
use mathlib.Core.List.{append_assoc}
use test_vts.Base.{
  ℕ, ◌+◌, ◌<◌, ◌≡◌, refl, sym, ap, ◌∙◌, Option, none, some, List, [], ◌∷◌, ◌++◌, arith, length, All,
  map, if◌then◌else◌,
}
use test_vts.Base.Text.{Str, codes, str_eq, str_eq_instance}
use test_vts.Common.ListUtils.Text.{strip, split}
use test_vts.Library.Result.{Result, ok, raise, ◌>>=◌}
use test_vts.Archive.{
  Archive, global_sig, string_table_terminator, init, look_up, store_names, store_file,
  store_content, parse,
}
use test_vts.Archive.Dictionaries.{
  entry_of, entry_of-assign, table_text, IsLine, split-table_text, store_names-at,
}
use test_vts.Archive.Members.{Member, IsMember, write_members, moved, file_all, parse-write_members}
use test_vts.Archive.Names.{Means, Holds, none-Holds, filed, store_content-Means}

-- The member that holds the table, if there is one.
pub data IsTable : Option (List Str) → List Member → Type 0 where
  no_table : IsTable none []
  table :
      (t : Member) (names : List Str)
      → All IsLine names
      → strip t.name ≡ codes "//"
      → t.content ≡ table_text names
      → IsTable (some names) (t ∷ [])

-- The names and the contents of the files among the members.
abbrev pub named : List (Member × Option Str) → List (Str × Str)
named [] = []
named ((m, none) ∷ files) = named files
named ((m, some name) ∷ files) = (name, m.content) ∷ named files

-- The content of the last file of a name, or what was there before.
abbrev pub latest : Str → List (Str × Str) → Option Str → Option Str
latest key [] old = old
latest key ((name, content) ∷ files) old =
    latest key files (if str_eq name key then some content else old)

abbrev members : List (Member × Option Str) → List Member
members files = map (λ (x : Member × Option Str). x.0) files

filed-string_table :
    (meaning : Option Str) (content : Str) (a : Archive)
    → (filed meaning content a).string_table ≡ a.string_table
unfolding filed store_file
filed-string_table none content a = refl
filed-string_table (some name) content a = refl

filed-files :
    (key : Str) (meaning : Option Str) (m : Member) (files : List (Member × Option Str))
    (a : Archive)
    → latest key (named files) (entry_of key (filed meaning m.content a).files)
      ≡ latest key (named ((m, meaning) ∷ files)) (entry_of key a.files)
unfolding filed store_file
filed-files key none m files a = refl
filed-files key (some name) m files a =
    ap (λ old. latest key (named files) old) (entry_of-assign key name m.content a.files)

-- The files of a run of members.
record IsFiled (files : List (Member × Option Str)) (a b : Archive) : Type 0 where
  entries : (key : Str) → entry_of key b.files ≡ latest key (named files) (entry_of key a.files)
  same_table : b.string_table ≡ a.string_table

file_all-IsFiled :
    (names : Option (List Str)) (files : List (Member × Option Str)) (a : Archive)
    → Holds names a.string_table
    → All (λ (x : Member × Option Str). Means names x.0 x.1) files
    → (b : Archive) × (file_all (members files) a ≡ ok b) × IsFiled files a b
file_all-IsFiled names [] a holds h = (a, refl, record { entries = λ key. refl; same_table = refl })
file_all-IsFiled names ((m, meaning) ∷ files) a holds (h, hs) =
    let a' = moved (60 + length m.content) a in
    let next = filed meaning m.content a' in
    let kept = filed-string_table meaning m.content a' in
    let ih = file_all-IsFiled names files next (subst (Holds names) (sym kept) holds) hs in
    (
      ih.0,
      rw (store_content-Means names m meaning a' holds h) ih.1,
      record {
        entries = λ key. ih.2.entries key ∙ filed-files key meaning m files a';
        same_table = ih.2.same_table ∙ kept;
      },
    )

bind_assoc :
    (r : Result Archive) (ms ns : List Member)
    → ((a : Archive) → file_all (ms ++ ns) a ≡ (file_all ms a >>= file_all ns))
    → (r >>= file_all (ms ++ ns)) ≡ ((r >>= file_all ms) >>= file_all ns)
bind_assoc (ok a) ms ns h = h a
bind_assoc (raise e) ms ns h = refl

file_all-append :
    (ms ns : List Member) (a : Archive) → file_all (ms ++ ns) a ≡ (file_all ms a >>= file_all ns)
file_all-append [] ns a = refl
file_all-append (m ∷ ms) ns a =
    bind_assoc (store_content (strip m.name) m.content (moved (60 + length m.content) a)) ms ns
      (file_all-append ms ns)

latest-append :
    (key : Str) (early files : List (Member × Option Str)) (old : Option Str)
    → latest key (named (early ++ files)) old
      ≡ latest key (named files) (latest key (named early) old)
latest-append key [] files old = refl
latest-append key ((m, none) ∷ early) files old = latest-append key early files old
latest-append key ((m, some name) ∷ early) files old = latest-append key early files _

split_table-Holds :
    (names : List Str) (dict : List (ℕ × Str))
    → All IsLine names
    → let parts = split string_table_terminator 0 (table_text names) in
      Holds (some names) (store_names 0 (parts.0 ∷ parts.1) dict)
unfolding Holds
split_table-Holds names dict lines before after name e =
    let inner : names ≡ before ++ name ∷ after = cc in
    let whole : names ++ [] ∷ [] ≡ before ++ name ∷ (after ++ [] ∷ []) =
      ap (λ l. l ++ [] ∷ []) inner ∙ append_assoc before (name ∷ after) ([] ∷ []) in
    let at : length (table_text before) ≡ 0 + length (table_text before) = omega arith in
    ap (λ l. look_up (length (table_text before)) (store_names 0 l dict))
      (split-table_text names lines ∙ whole)
    ∙ ap (λ k. look_up k (store_names 0 (before ++ name ∷ (after ++ [] ∷ [])) dict)) at
    ∙ store_names-at before (after ++ [] ∷ []) name 0 dict

-- The table is kept, and no file changes.
file_all-IsTable :
    (names : Option (List Str)) (tables : List Member) (a : Archive)
    → IsTable names tables
    → (b : Archive) × (file_all tables a ≡ ok b) × (b.files ≡ a.files) × Holds names b.string_table
unfolding store_content Holds
file_all-IsTable _ _ a no_table = (a, refl, refl, λ before after name h. cc)
file_all-IsTable _ _ a (table t names lines e content) =
    let parts = split string_table_terminator 0 t.content in
    let b = record (moved (60 + length t.content) a) {
      string_table = store_names 0 (parts.0 ∷ parts.1) a.string_table;
    } in
    (
      b,
      rw e refl,
      refl,
      subst
          (λ c.
            let p = split string_table_terminator 0 c in
            Holds (some names) (store_names 0 (p.0 ∷ p.1) a.string_table))
          (sym content) (split_table-Holds names a.string_table lines),
    )

-- Parse files an archive of any members without padding whose name fields mean names of files: what
-- it leaves for a name is the content of the last file of that name, for short names with and without
-- the slash, and for long names that stand in a table, which may come after other members. A table of
-- symbols is no file. The size fields say how long the contents are, and one round more than there
-- are members is enough.
pub parse-named :
    (names : Option (List Str)) (early files : List (Member × Option Str)) (tables : List Member)
    (fuel : ℕ)
    → All (λ (x : Member × Option Str). Means none x.0 x.1) early
    → IsTable names tables
    → All (λ (x : Member × Option Str). Means names x.0 x.1) files
    → All IsMember (members early ++ (tables ++ members files))
    → length (members early ++ (tables ++ members files)) < fuel
    → let ar = global_sig ++ write_members (members early ++ (tables ++ members files)) in
      (b : Archive) × (parse fuel (init ar) ≡ ok b)
      × ((key : Str) → entry_of key b.files ≡ latest key (named (early ++ files)) none)
unfolding init
parse-named names early files tables fuel he ht hf hm enough =
    let ms = members early ++ (tables ++ members files) in
    let a = moved 8 (init (global_sig ++ write_members ms)) in
    let first = file_all-IsFiled none early a (none-Holds a.string_table) he in
    let middle = file_all-IsTable names tables first.0 ht in
    let last = file_all-IsFiled names files middle.0 middle.3 hf in
    (
      last.0,
      parse-write_members ms fuel hm enough
          ∙ file_all-append (members early) (tables ++ members files) a
          ∙ rw first.1 (file_all-append tables (members files) first.0 ∙ rw middle.1 last.1),
      λ key.
          last.2.entries key
          ∙ ap (λ d. latest key (named files) (entry_of key d)) middle.2
          ∙ ap (latest key (named files)) (first.2.entries key)
          ∙ sym (latest-append key early files none),
    )
