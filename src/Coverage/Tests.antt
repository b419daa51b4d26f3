-- ===== src/Coverage/Tests.antt =====
-- The theorems of utils/python/coverage at concrete inputs, and small runs.
use test_vts.Library.Structs.Pack.{write_le}
use test_vts.Coverage.Sancov.{
  parse_sancov_file, magic64, write_offsets, parse_sancov_file-write_offsets,
}
use test_vts.Base.{
  All, ℕ, zero, suc, ◌<◌, ◌≡◌, ◌≢◌, refl, Bool, true, false, List, [], ◌∷◌, ◌++◌, Option, none,
  some, length, get_or, is_empty, arith, nat_eq,
}
use test_vts.Base.Int.{◌+ℤ◌, pos, sum_by}
use test_vts.Base.Text.{codes}
use test_vts.Coverage.Result.{Result, ok, raise, out_of_fuel}
use test_vts.Coverage.Stream.{
  version_digit, string_of, read_version, Bytes, word, read_int, read_string, rstrip_nul,
  swap_bytes, init,
}
use test_vts.Coverage.Stream.RoundTrip.{
  write_int, write_string, write_header, read_string-write_string, init-write_header,
  stored_checksum,
}
use test_vts.Coverage.Summary.{
  Function, Block, FileSummary, insert, new_function, new_block, new_arc,
}
use test_vts.Coverage.Resolve.{
  from_dest, dest_count, source_count, sum_counts, resolve, resolve_loop, unresolved_in,
  unresolved_of, resolve_arc, from_source, all_resolved, set_count, arc, entry_arcs, exit_arcs,
  no_block, is_dropped,
}
use test_vts.Coverage.Resolve.Ends.{resolve-total}
use test_vts.Coverage.Resolve.Flow.{IsFlow}
use test_vts.Coverage.Resolve.Flow.Counts.{block_flow, resolve-block_flow}
use test_vts.Coverage.Gcno.{
  magic, tag_function, tag_blocks, tag_arcs, tag_lines, parse_loop, read_section, find_tag, section,
  read_function, section_blocks, section_arcs, read_arcs, section_lines, add_arc, add_entry,
  add_exit, new_parser, parse, read_blocks, read_lines, skip_checksum, store, parse_gcno_file,
}
use test_vts.Coverage.Gcno.Total.{parse_gcno_file-total}
use test_vts.Coverage.Gcno.Graph.{IsWired, IsWired-add_arc}
use test_vts.Coverage.Gcno.Graph.Wire.{IsWired-new_function, IsWired-append}
use test_vts.Coverage.Gcno.Graph.Files.{AllWired, parse_gcno_file-AllWired}
use test_vts.Coverage.Gcda.{is_counted, parse_gcda_file, read_counts}
use test_vts.Coverage.Report.{add_blocks, not_code}
use test_vts.Coverage.Report.Vector.{HasLines, entry_of, count_blocks, add_blocks-get_or}
use test_vts.Coverage.Gcda.Total.{parse_gcda_file-total}
use test_vts.Coverage.Gcda.Counts.{write_counts, with_counts, read_counts-write_counts}
use test_vts.Coverage.Gcda.Blocks.{
  IsReadOf, IsReadOf-self, IsReadOf-with_block_counts, IsGraph-read, leaves-read, IsFlow-read,
  counts_of, read_counts-block_flow,
}

main_trimmed : rstrip_nul (codes "main.c") ≡ codes "main.c"
unfolding rstrip_nul
main_trimmed = refl

read_string-write_string_example :
    read_string true (write_string true 2 (codes "main.c") 2 ++ 9 ∷ [])
    ≡ ok (codes "main.c", 9 ∷ [])
read_string-write_string_example =
    read_string-write_string true 2 (codes "main.c") 2 (9 ∷ []) (omega arith) refl main_trimmed

magic_no_palindrome : swap_bytes magic ≢ magic
unfolding swap_bytes word
magic_no_palindrome = omega arith

init-write_header_example :
    init magic (write_header true magic (codes "*204") 5 (1 ∷ []))
    ≡ ok (record {
      big = true;
      version = codes "*204";
      checksum = stored_checksum true 5;
      bytes = 1 ∷ [];
    })
init-write_header_example =
    init-write_header true magic 42 50 48 52 5 (1 ∷ []) (omega arith) magic_no_palindrome
      (omega arith)

-- A function of three blocks in a row; the first arc is measured, the second one is on the tree.
abbrev three_blocks : Function
three_blocks = record (new_function 7 (codes "f") (codes "f.c") 1) {
  blocks = new_block 0 0 ∷ new_block 1 0 ∷ new_block 2 0 ∷ [];
}

abbrev chain : Function
chain = add_arc 1 2 1 (add_arc 0 1 0 three_blocks)

three_blocks-IsWired : IsWired three_blocks
unfolding new_function new_block
three_blocks-IsWired =
    IsWired-append (new_function 7 (codes "f") (codes "f.c") 1) _
      (IsWired-new_function 7 (codes "f") (codes "f.c") 1)
      ((refl, refl), ((refl, refl), ((refl, refl), tt)))

chain-IsWired : IsWired chain
unfolding add_arc add_exit add_entry new_function
chain-IsWired =
    IsWired-add_arc _ 1 2 1 (omega arith) (omega arith)
      (IsWired-add_arc three_blocks 0 1 0 (omega arith) (omega arith) three_blocks-IsWired)

-- Every arc is taken five times.
abbrev five : ℕ → ℕ
five a = 5

chain-IsFlow : IsFlow chain (counts_of five)
unfolding add_arc add_exit add_entry arc new_arc new_block exit_arcs entry_arcs is_dropped
    new_function sum_by
chain-IsFlow = record { conserved = conserved; dropped = dropped }
  where
    conserved :
        (b : ℕ)
        → is_empty (entry_arcs chain b) ≡ false
        → is_empty (exit_arcs chain b) ≡ false
        → sum_by (counts_of five) (entry_arcs chain b) ≡ sum_by (counts_of five) (exit_arcs chain b)
    conserved zero h k = cc
    conserved (suc zero) h k = refl
    conserved (suc (suc zero)) h k = cc
    conserved (suc (suc (suc b))) h k = cc

    dropped : (a : ℕ) → is_dropped chain a ≡ true → counts_of five a ≡ pos 0
    dropped zero h = cc
    dropped (suc zero) h = cc
    dropped (suc (suc a)) h = cc

read_counts-write_counts_example :
    read_counts false chain (write_counts false chain five ++ 3 ∷ [])
    ≡ ok (with_counts five chain, 3 ∷ [])
read_counts-write_counts_example =
    read_counts-write_counts false five (λ a. omega arith) chain (3 ∷ [])

-- What `Resolve` leaves.
abbrev resolved_of : Option (Function × Bool) → Function
resolved_of none = three_blocks
resolved_of (some (g, b)) = g

abbrev resolved_chain : Function
resolved_chain = resolved_of (resolve (with_counts five chain))

chain_resolves : resolve (with_counts five chain) ≡ some (resolved_chain, true)
unfolding resolve resolve_loop unresolved_in unresolved_of resolve_arc from_source all_resolved
    set_count is_counted is_dropped arc entry_arcs exit_arcs add_arc new_arc new_block new_function
chain_resolves = refl

one_of_three : 1 < length chain.blocks
unfolding add_arc add_exit add_entry new_function
one_of_three = omega arith

-- What `ReadCounts` reads.
read_chain_counts :
    read_counts false chain (write_counts false chain five ++ 3 ∷ [])
    ≡ ok (with_counts five chain, 3 ∷ [])
read_chain_counts = read_counts-write_counts false five (λ a. omega arith) chain (3 ∷ [])

read_counts-block_flow_example :
    (get_or resolved_chain.blocks 1 no_block).count ≡ block_flow chain (counts_of five) 1
read_counts-block_flow_example =
    read_counts-block_flow five chain false (3 ∷ []) (3 ∷ []) (with_counts five chain)
      resolved_chain (λ a. omega arith) chain-IsWired chain-IsFlow read_chain_counts chain_resolves
      1 one_of_three

resolve-total_example : resolve chain ≢ none
resolve-total_example = resolve-total chain

abbrev read_chain : Function
read_chain = with_counts five chain

read_chain-IsReadOf : IsReadOf five chain read_chain
read_chain-IsReadOf =
    IsReadOf-with_block_counts five chain chain.blocks chain
      (IsReadOf-self five chain chain-IsWired)

one_of_read : 1 < length read_chain.blocks
one_of_read = omega (arith, read_chain-IsReadOf.sizes.1, one_of_three)

resolve-block_flow_example :
    (get_or resolved_chain.blocks 1 no_block).count ≡ block_flow read_chain (counts_of five) 1
resolve-block_flow_example =
    resolve-block_flow read_chain (counts_of five) resolved_chain
      (IsGraph-read five chain read_chain read_chain-IsReadOf chain-IsWired)
      (leaves-read five chain read_chain read_chain-IsReadOf chain-IsWired)
      (IsFlow-read five chain read_chain read_chain-IsReadOf chain-IsWired chain-IsFlow)
      read_chain-IsReadOf.measured chain_resolves 1 one_of_read

-- A file with one function of two blocks and one arc.
abbrev gcno_bytes : Bytes
gcno_bytes = write_header false magic (codes "*204") 5 (
    write_words (tag_function ∷ 6 ∷ 7 ∷ 1 ∷ [])
    ++ write_string false 1 (codes "f") 3
    ++ write_string false 1 (codes "f.c") 1
    ++ write_words
        (1 ∷ tag_blocks ∷ 2 ∷ 0 ∷ 0 ∷ tag_arcs ∷ 3 ∷ 0 ∷ 1 ∷ 0 ∷ tag_lines ∷ 7 ∷ 1 ∷ 0 ∷ [])
    ++ write_string false 1 (codes "f.c") 1
    ++ write_words (12 ∷ 13 ∷ []))
  where
    write_words : List ℕ → Bytes
    write_words [] = []
    write_words (w ∷ ws) = write_int false w ++ write_words ws

abbrev files_of : Result FileSummary → FileSummary
files_of (raise e) = []
files_of (ok files) = files

abbrev gcno_files : FileSummary
gcno_files = files_of (parse_gcno_file gcno_bytes)

gcno_parses : parse_gcno_file gcno_bytes ≡ ok gcno_files
unfolding parse_gcno_file new_parser parse init swap_bytes word read_int read_version version_digit
    read_string string_of rstrip_nul parse_loop read_section find_tag section read_function
    skip_checksum section_blocks read_blocks section_arcs read_arcs add_arc add_entry add_exit
    section_lines read_lines store insert new_function new_arc new_block write_header write_int
    write_string
gcno_parses = refl

parse_gcno_file-AllWired_example : AllWired gcno_files
parse_gcno_file-AllWired_example = parse_gcno_file-AllWired gcno_bytes gcno_files gcno_parses

parse_gcno_file-total_example : parse_gcno_file gcno_bytes ≢ raise out_of_fuel
parse_gcno_file-total_example = parse_gcno_file-total gcno_bytes

parse_gcda_file-total_example : parse_gcda_file gcno_bytes gcno_files ≢ raise out_of_fuel
parse_gcda_file-total_example = parse_gcda_file-total gcno_bytes gcno_files

-- Two blocks that share line 2.
abbrev two_blocks : List Block
two_blocks =
    record (new_block 0 0) { count = pos 3; lines = 1 ∷ 2 ∷ [] }
    ∷ record (new_block 1 0) { count = pos 4; lines = 2 ∷ [] }
    ∷ []

two_blocks-HasLines : All HasLines two_blocks
two_blocks-HasLines = ((omega arith, (omega arith, tt)), ((omega arith, tt), tt))

add_blocks-get_or_example :
    entry_of 1 (add_blocks two_blocks []) ≡ some (count_blocks 1 two_blocks not_code)
add_blocks-get_or_example = add_blocks-get_or 1 two_blocks [] two_blocks-HasLines

line_2_of_two : count_blocks 1 two_blocks not_code ≡ pos 7
unfolding new_block ◌+ℤ◌
line_2_of_two = refl

-- Blocks 0 to 4; of the arcs 0 → 1, 1 → 2, 2 → 3 and 4 → 0, the third one is measured.
abbrev stuck : Function
stuck =
    set_count
      (add_arc 4 0 1 (
        add_arc 2 3 0 (
          add_arc 1 2 1 (
            add_arc 0 1 1 (record (new_function 7 [] [] 1) {
              blocks =
                  new_block 0 0
                  ∷ new_block 1 0
                  ∷ new_block 2 0
                  ∷ new_block 3 0
                  ∷ new_block 4 0
                  ∷ [];
            })))))
      2 (pos 7)

abbrev left_over : Function
left_over = (resolve_arc stuck 1).0

stuck_looks :
    (resolve_arc stuck 0 ≡ (stuck, false))
    × (resolve_arc stuck 1 ≡ (left_over, true))
    × (resolve_arc left_over 3 ≡ (left_over, false))
    × ((resolve_arc left_over 0).1 ≡ true)
unfolding resolve_arc from_source from_dest dest_count source_count all_resolved sum_counts
    set_count is_dropped arc entry_arcs exit_arcs add_arc add_entry add_exit new_arc new_block
    new_function
stuck_looks = (refl, refl, refl, refl)

-- The loop fails after a pass whose last look was in vain, although the first arc could be resolved.
gives_up : resolve_loop 5 stuck (0 ∷ 1 ∷ 3 ∷ []) 0 4 ≡ some (left_over, false)
unfolding resolve_loop resolve_arc from_source from_dest dest_count source_count all_resolved
    sum_counts set_count is_dropped arc entry_arcs exit_arcs add_arc add_entry add_exit new_arc
    new_block new_function
gives_up = refl

-- A file of 64 bit offsets that breaks off in the third one.
parse_sancov_file-write_offsets_example :
    parse_sancov_file (write_le 8 magic64 ++ write_offsets 8 (4096 ∷ 65 ∷ []) (1 ∷ 2 ∷ []))
    ≡ ok (some 64, 4096 ∷ 65 ∷ [])
parse_sancov_file-write_offsets_example =
    parse_sancov_file-write_offsets true (4096 ∷ 65 ∷ []) (1 ∷ 2 ∷ [])
      (omega arith, (omega arith, tt)) (omega arith)
