-- ===== src/Archive/Tests.antt =====
-- The parser of archives at an archive with a table of long names, and at a padded one.
use test_vts.Base.{◌≡◌, refl, [], ◌∷◌, ◌++◌, arith, List, ℕ, Option, none, some}
use test_vts.Base.Text.{Str, codes}
use test_vts.Library.Result.{Result, ok, raise, value_error}
use test_vts.Library.Ar.{int, int_signed, lstrip, int_unsigned, int_digits}
use test_vts.Base.Int.{◌+ℤ◌}
use test_vts.Common.ListUtils.Text.{strip, split}
use test_vts.Archive.{Archive, global_sig, init, store_content, parse}
use test_vts.Archive.Dictionaries.{entry_of}
use test_vts.Archive.Names.{Means, terminated, long}
use test_vts.Archive.Files.{IsTable, table, named, latest, parse-named}
use test_vts.Archive.Members.{Member, IsMember, write_members, moved, file_all}

abbrev long_names : Member
long_names = record {
  name = codes "//              ";
  timestamp = codes "            ";
  owner = codes "      ";
  group = codes "      ";
  mode = codes "        ";
  size = codes "23        ";
  content = codes "a_long_file_name.gcno/\n";
}

abbrev long_file : Member
long_file = record {
  name = codes "/0              ";
  timestamp = codes "0           ";
  owner = codes "0     ";
  group = codes "0     ";
  mode = codes "644     ";
  size = codes "3         ";
  content = codes "abc";
}

long_names-IsMember : IsMember long_names
unfolding int int_signed lstrip int_unsigned int_digits
long_names-IsMember = record {
  name_length = refl;
  timestamp_length = refl;
  owner_length = refl;
  group_length = refl;
  mode_length = refl;
  size_length = refl;
  reads = refl;
}

long_file-IsMember : IsMember long_file
unfolding int int_signed lstrip int_unsigned int_digits
long_file-IsMember = record {
  name_length = refl;
  timestamp_length = refl;
  owner_length = refl;
  group_length = refl;
  mode_length = refl;
  size_length = refl;
  reads = refl;
}

abbrev two_members : List Member
two_members = long_names ∷ long_file ∷ []

-- A table of symbols of the GNU format comes first, under the empty name, and a short name twice.
abbrev gnu_symbols : Member
gnu_symbols = record long_file {
  name = codes "/               ";
  size = codes "1         ";
  content = codes "s";
}

abbrev short_file : Str → Member
short_file content = record long_file { name = codes "a.gcno/         "; content = content }

abbrev early_files : List (Member × Option Str)
early_files = (gnu_symbols, some []) ∷ (short_file (codes "old"), some (codes "a.gcno")) ∷ []

abbrev late_files : List (Member × Option Str)
late_files =
    (long_file, some (codes "a_long_file_name.gcno"))
    ∷ (short_file (codes "new"), some (codes "a.gcno"))
    ∷ []

abbrev all_members : List Member
all_members =
    gnu_symbols ∷ short_file (codes "old") ∷ long_names ∷ long_file ∷ short_file (codes "new") ∷ []

gnu_symbols-IsMember : IsMember gnu_symbols
unfolding int int_signed lstrip int_unsigned int_digits
gnu_symbols-IsMember = record {
  name_length = refl;
  timestamp_length = refl;
  owner_length = refl;
  group_length = refl;
  mode_length = refl;
  size_length = refl;
  reads = refl;
}

short_file-IsMember : (a b c : ℕ) → IsMember (short_file (a ∷ b ∷ c ∷ []))
unfolding int int_signed lstrip int_unsigned int_digits
short_file-IsMember a b c = record {
  name_length = refl;
  timestamp_length = refl;
  owner_length = refl;
  group_length = refl;
  mode_length = refl;
  size_length = refl;
  reads = refl;
}

symbols-Means : Means none gnu_symbols (some [])
unfolding strip
symbols-Means = terminated [] refl refl

short-Means :
    (names : Option (List Str)) (content : Str)
    → Means names (short_file content) (some (codes "a.gcno"))
unfolding strip
short-Means names content = terminated (codes "a.gcno") refl refl

abbrev one_name : Option (List Str)
one_name = some (codes "a_long_file_name.gcno" ∷ [])

long-Means : Means one_name long_file (some (codes "a_long_file_name.gcno"))
unfolding strip int int_signed lstrip int_unsigned int_digits
long-Means = long [] [] (codes "a_long_file_name.gcno") (codes "0") refl refl refl refl

long_names-IsTable : IsTable one_name (long_names ∷ [])
unfolding strip
long_names-IsTable = table long_names (codes "a_long_file_name.gcno" ∷ []) (refl, tt) refl refl

parse-named_example :
    (b : Archive) × (parse 6 (init (global_sig ++ write_members all_members)) ≡ ok b)
    × ((key : Str) → entry_of key b.files ≡ latest key (named (early_files ++ late_files)) none)
parse-named_example =
    parse-named one_name early_files late_files (long_names ∷ []) 6
      (symbols-Means, (short-Means none (codes "old"), tt)) long_names-IsTable
      (long-Means, (short-Means one_name (codes "new"), tt))
      (
        gnu_symbols-IsMember,
        (
          short_file-IsMember 111 108 100,
          (long_names-IsMember, (long_file-IsMember, (short_file-IsMember 110 101 119, tt))),
        ),
      )
      (omega arith)

abbrev files_of : Result Archive → Result (List (Str × Str))
files_of (ok a) = ok a.files
files_of (raise e) = raise e

long_name_found :
    files_of (file_all two_members (moved 8 (init [])))
    ≡ ok ((codes "a_long_file_name.gcno", codes "abc") ∷ [])
unfolding store_content strip split init int int_signed lstrip int_unsigned int_digits
long_name_found = refl

-- The padding after a content of an odd length is read as part of the next header.
padded_fails :
    files_of (
      parse 9 (
        init (global_sig ++ write_members (long_file ∷ []) ++ 10 ∷ write_members (long_file ∷ []))))
    ≡ raise value_error
unfolding parse ◌+ℤ◌ init strip int int_signed lstrip int_unsigned int_digits
padded_fails = refl
