-- ===== src/Lib.antt =====
-- The host side of the Vendor Test Suite (VTS) chooses which test cases to run, records what
-- became of them, and reads the code coverage that the target wrote while they ran. It also reads
-- ELF files, to check the libraries of a device. This library models five parts of it.
--
-- Common stands for utils/python/common. Common/ListUtils.antt is list_utils.py, with what
-- concerns texts in its child Text. Common/Filter.antt and its child Patterns are filter_utils.py:
-- Patterns has the functions of the module (ExpandBitness, ExpandAppendix, SplitFilterList,
-- SplitNegativePattern, InRegexList, IsRegexFilter), Filter has the class, with a field for each
-- attribute and a function for each method and property. Its children Selects and Correct hold the
-- independent description of a verdict, `selects`, and Calls the sequences of method calls on one
-- object. The regular expressions of Python are a parameter, `Regex`: which patterns compile, and
-- how far a match reaches.
--
-- Coverage stands for utils/python/coverage. Coverage/Stream.antt is parser.py: a stream is the
-- list of the bytes that are left. Coverage/Summary.antt has the four summary classes and
-- Coverage/Resolve.antt the two methods Resolve of arc_summary.py and function_summary.py. Arcs
-- and blocks are positions in two arrays of a function, so that the lists of arcs of two blocks
-- share an arc as the objects of the program do. Coverage/Gcno.antt is gcno_parser.py and
-- Coverage/Gcda.antt is gcda_parser.py, which works on the functions that the first one returned.
-- Coverage/Sancov.antt is sancov_parser.py. Coverage/Report.antt is coverage_report.py, which adds
-- the counts of the blocks up by lines. What a read returns or raises is a `Result`.
--
-- Host stands for runners/host. Host/Records.antt is the record of a test case in records.py and
-- Host/Records/Result.antt the class TestResult. Records are objects that several lists share:
-- they stand in a store, and lists hold positions in it. The readings of the clock are a
-- parameter. Host/ExecOneTest.antt is execOneTest of base_test.py: what a test script, its
-- procedure functions and the devices do is an argument, an interrupt that ends a procedure or the
-- test function included (one that arrives between their calls is not), and what is followed is
-- the record of the test case and the results. Host/Requests.antt has the lists of requested tests
-- of run and runGeneratedTests, and Host/Records/Tallies.antt the results that a run comes to.
-- Host/FilterOneTest.antt is filterOneTest with the filters of the test class, skipAllTests and
-- the bitness of the ABI, and execOneTest with it: names of tests are byte strings, so that
-- str.lower changes the letters A to Z alone.
--
-- Library stands for utils/python/library. Library/Sleb128.antt is elf/utils.py,
-- Library/Consts.antt elf/consts.py, and Library/Structs.antt with its children elf/structs.py: a
-- structure is read field by field as its layout says, little endian, for both classes of file.
-- Library/Elf.antt is the constructor and the reads of elf_parser.py; its children are Sections
-- (strings, sections, the dynamic section, program headers and notes), Symbols and Relocations
-- (plain tables, RELR and packed relocations). Library/Vtable.antt and its child Dump are
-- vtable/vtable_dumper.py, which works on the parser of a file. Library/Ar.antt is ar_parser.py,
-- which opens a parser at the offset of each member. A file is the list of its bytes with a begin
-- offset. Python's sort and bisect are written out. What is specific to one machine is left out:
-- the bound of an offset in a file, the memory that a list takes, and a host that is not little
-- endian.
--
-- Archive stands for utils/python/archive: Archive.antt is archive_parser.py, which files the
-- contents of an archive by their names. Its child Names says what the name field of a member
-- means, and Files what is filed.
--
-- Seven loops have fuel. The loop of FunctionSummary.Resolve has n * n + 3 * n + 1 rounds for n
-- unresolved arcs: a pass over the list ends it or makes the list shorter. The outer loops of the
-- two parsers have one round more than the file has bytes: each section takes at least four. The
-- loop of _SeekReadString has one round more than the file has bytes, and so has the loop of
-- _UnpackAndroidRela over the groups of a section, each of which takes at least two bytes. The
-- loop of _IterateArchive may run for ever, so its fuel is an argument: one round more than there
-- are members is enough for an archive whose sizes are right. The loop of ListGlobalSymbols takes
-- turns with it and has the same rounds. The same holds for the loop of Archive.Parse.
-- `out_of_fuel` and the `none` of `resolve` are no outcomes of the program.
--
-- Base has what the parts share: tests on numbers, lists with membership over an equality, strings
-- as lists of character codes, integers, and arrays.
--
-- Not modelled: the output of reports as text and JSON, the rest of the test class base and the
-- runner (runners/host/base_test.py, test_runner.py), whatever talks to devices, processes,
-- sockets, files, cloud storage or protocol buffers, the test cases themselves, and the parts in
-- C++ and Java.
pub mod Archive
pub mod Base
pub mod Common
pub mod Coverage
pub mod Host
pub mod Library
