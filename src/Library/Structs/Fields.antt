-- ===== src/Library/Structs/Fields.antt =====
-- ctypes.LittleEndianStructure, as far as utils/python/library/elf/structs.py uses it: the fields of
-- a structure, read from its bytes.
use test_vts.Base.{ℕ, ◌+◌, ◌-◌, ◌*◌, ◌%◌, ◌^◌, List, [], ◌∷◌, ltb, take, drop, if◌then◌else◌}
use test_vts.Base.Int.{ℤ, pos, negsuc}

abbrev pub Layout : Type 0
Layout = List ℕ

abbrev pub sizeof : Layout → ℕ
sizeof [] = 0
sizeof (w ∷ ws) = w + sizeof ws

-- The values of the fields.
abbrev pub Values : Layout → Type 0
Values [] = Unit
Values (w ∷ ws) = ℕ × Values ws

abbrev pub little_endian : List ℕ → ℕ
little_endian [] = 0
little_endian (b ∷ bytes) = b + 256 * little_endian bytes

-- `from_buffer_copy`, of at least `sizeof` bytes
abbrev pub unpack : (ws : Layout) → List ℕ → Values ws
unpack [] bytes = tt
unpack (w ∷ ws) bytes = (little_endian (take w bytes), unpack ws (drop w bytes))

-- The value of a signed field of `bits` bits.
abbrev pub signed : ℕ → ℕ → ℤ
signed bits v = if ltb v (2 ^ (bits - 1)) then pos v else negsuc (2 ^ bits - 1 - v)

-- An integer stored in an unsigned field of `bits` bits, without a check for overflow.
abbrev pub wrap : ℕ → ℤ → ℕ
wrap bits (pos n) = n % 2 ^ bits
wrap bits (negsuc n) = 2 ^ bits - 1 - n % 2 ^ bits
