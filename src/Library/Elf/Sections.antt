-- ===== src/Library/Elf/Sections.antt =====
-- utils/python/library/elf_parser.py: strings, sections, the dynamic section and what is read of
-- them. The sections of a name and the entries of a section are generators; a function that stops at
-- the first one reads no further.
use test_vts.Base.{
  ℕ, zero, suc, ◌+◌, ◌*◌, ◌/◌, Bool, true, false, Option, none, some, List, [], ◌∷◌, ◌++◌, ◌==◌,
  get_elem?, if◌then◌else◌,
}
use test_vts.Base.Int.{pos, negsuc}
use test_vts.Base.Text.{Str, str_eq, starts_with, codes}
use test_vts.Library.Result.{Result, ok, raise, ◌>>=◌, elf_error, index_error, zero_division}
use test_vts.Library.Consts.{
  et_exec, et_dyn, em_386, em_mips, em_arm, em_x86_64, em_aarch64, sht_dynamic, pt_interp, dt_null,
  dt_needed, dt_strtab,
}
use test_vts.Library.Structs.{Shdr, Dyn}
use test_vts.Library.Structs.Fields.{sizeof}
use test_vts.Library.Structs.Layouts.{
  dyn_fields, dyn_of, phdr_fields, phdr_of, nhdr_fields, nhdr_of,
}
use test_vts.Library.Elf.{ElfParser, seek_read, seek_read_string, seek_read_struct}

-- `GetString`
unfoldable pub get_string : ElfParser → Shdr → ℕ → Result Str
get_string p strtab offset = seek_read_string p.file (strtab.sh_offset + offset)

-- `self.Shdr[i]`
unfoldable pub section_at : ElfParser → ℕ → Result Shdr
section_at p i = elim (get_elem? p.shdr i) [ none ↦ raise index_error | some sh ↦ ok sh ]

-- `GetSectionName`
unfoldable pub get_section_name : ElfParser → Shdr → Result Str
get_section_name p sh = do strtab ← section_at p p.ehdr.e_shstrndx; get_string p strtab sh.sh_name

-- The first section of the name among the sections that are left.
unfoldable pub first_of_name : ElfParser → Str → List Shdr → Result (Option Shdr)
first_of_name p name [] = ok none
first_of_name p name (sh ∷ rest) = do
  n ← get_section_name p sh
  let more = first_of_name p name rest
  if str_eq name n then ok (some sh) else more

-- `GetSectionByName`
unfoldable pub get_section_by_name : ElfParser → Str → Result (Option Shdr)
get_section_by_name p name = first_of_name p name p.shdr

-- `int(sh.sh_size // sh.sh_entsize)`
unfoldable pub entries : Shdr → Result ℕ
entries sh = if sh.sh_entsize == 0 then raise zero_division else ok (sh.sh_size / sh.sh_entsize)

unfoldable pub has_tag : ℕ → Dyn → Bool
has_tag tag dyn = elim (dyn.d_tag) [ pos n ↦ n == tag | negsuc n ↦ false ]

-- `GetDynamic`, from `off` on, for `n` entries at most
unfoldable pub dynamic_from : ElfParser → ℕ → ℕ → ℕ → Result (List Dyn)
dynamic_from p zero off entsize = ok []
dynamic_from p (suc n) off entsize = do
  fields ← seek_read_struct p.file off (dyn_fields p.class)
  let dyn = dyn_of p.class fields
  let more = dynamic_from p n (off + entsize) entsize
  if has_tag dt_null dyn then ok (dyn ∷ []) else (do rest ← more; ok (dyn ∷ rest))

unfoldable pub get_dynamic : ElfParser → Shdr → Result (List Dyn)
get_dynamic p dynamic = do
  num ← entries dynamic
  dynamic_from p num dynamic.sh_offset dynamic.sh_entsize

-- `name_offsets` and `strtab_addr` of `_LoadDtNeeded`
unfoldable pub scan_dynamic : List Dyn → List ℕ → Option ℕ → List ℕ × Option ℕ
scan_dynamic [] name_offsets strtab_addr = (name_offsets, strtab_addr)
scan_dynamic (dyn ∷ dyns) name_offsets strtab_addr =
    if has_tag dt_needed dyn
    then scan_dynamic dyns (name_offsets ++ dyn.d_un ∷ []) strtab_addr
    else if has_tag dt_strtab dyn
    then scan_dynamic dyns name_offsets (some dyn.d_un)
    else scan_dynamic dyns name_offsets strtab_addr

unfoldable pub section_at_address : ℕ → List Shdr → Result Shdr
section_at_address strtab_addr [] = raise elf_error
section_at_address strtab_addr (sh ∷ rest) =
    if sh.sh_addr == strtab_addr then ok sh else section_at_address strtab_addr rest

unfoldable pub get_strings : ElfParser → Shdr → List ℕ → Result (List Str)
get_strings p strtab [] = ok []
get_strings p strtab (off ∷ offs) = do
  name ← get_string p strtab off
  rest ← get_strings p strtab offs
  ok (name ∷ rest)

-- `_LoadDtNeeded`
unfoldable pub strtab_of : ElfParser → Option ℕ → Result Shdr
strtab_of p none = raise elf_error
strtab_of p (some strtab_addr) = section_at_address strtab_addr p.shdr

unfoldable pub load_dt_needed : ElfParser → Shdr → Result (List Str)
load_dt_needed p dynamic = do
  dyns ← get_dynamic p dynamic
  let found = scan_dynamic dyns [] none
  strtab ← strtab_of p found.1
  get_strings p strtab found.0

-- `ListDependencies`
unfoldable pub dependencies_of : ElfParser → List Shdr → Result (List Str)
dependencies_of p [] = ok []
dependencies_of p (sh ∷ rest) =
    let more = dependencies_of p rest in
    if sh.sh_type == sht_dynamic
    then (do deps ← load_dt_needed p sh; others ← more; ok (deps ++ others))
    else more

unfoldable pub list_dependencies : ElfParser → Result (List Str)
list_dependencies p = dependencies_of p p.shdr

-- `IsExecutable`, `IsSharedObject`
unfoldable pub is_executable : ElfParser → Bool
is_executable p = p.ehdr.e_type == et_exec

unfoldable pub is_shared_object : ElfParser → Bool
is_shared_object p = p.ehdr.e_type == et_dyn

-- `HasAndroidIdent`
unfoldable pub has_android_ident_in : ElfParser → List Shdr → Result Bool
has_android_ident_in p [] = ok false
has_android_ident_in p (sh ∷ rest) = do
  n ← get_section_name p sh
  let more = has_android_ident_in p rest
  if str_eq (codes ".note.android.ident") n
      then (do
        fields ← seek_read_struct p.file sh.sh_offset nhdr_fields
        let nh = nhdr_of fields
        name ← seek_read p.file (sh.sh_offset + sizeof nhdr_fields) nh.n_namesz
        if str_eq name (codes "Android" ++ 0 ∷ []) then ok true else more)
      else more

unfoldable pub has_android_ident : ElfParser → Result Bool
has_android_ident p = has_android_ident_in p p.shdr

abbrev pub abi_machines : List (Str × ℕ)
abi_machines =
    (codes "arm64", em_aarch64)
    ∷ (codes "arm", em_arm)
    ∷ (codes "mips64", em_mips)
    ∷ (codes "mips", em_mips)
    ∷ (codes "x86_64", em_x86_64)
    ∷ (codes "x86", em_386)
    ∷ []

unfoldable pub match_machine : ℕ → Str → List (Str × ℕ) → Bool
match_machine e_machine abi [] = false
match_machine e_machine abi ((abi_prefix, machine) ∷ rest) =
    if starts_with abi_prefix abi then e_machine == machine else match_machine e_machine abi rest

-- `MatchCpuAbi`
unfoldable pub match_cpu_abi : ElfParser → Str → Bool
match_cpu_abi p abi = match_machine p.ehdr.e_machine abi abi_machines

-- `GetProgramInterpreter`, from the program header `ph_index` on, `n` of them
unfoldable pub interpreter_from : ElfParser → ℕ → ℕ → Result (Option Str)
interpreter_from p zero ph_index = ok none
interpreter_from p (suc n) ph_index = do
  fields ←
      seek_read_struct p.file (p.ehdr.e_phoff + ph_index * p.ehdr.e_phentsize) (phdr_fields p.class)
  let ph = phdr_of p.class fields
  let more = interpreter_from p n (suc ph_index)
  if ph.p_type == pt_interp
      then (do path ← seek_read_string p.file ph.p_offset; ok (some path))
      else more

unfoldable pub get_program_interpreter : ElfParser → Result (Option Str)
get_program_interpreter p = interpreter_from p p.ehdr.e_phnum 0
