-- ===== src/Library/Result.antt =====
-- utils/python/library: what a function of the library returns or raises.
use test_vts.Base.{◌≡◌, refl, ◌⊎◌, inl, inr}

pub data Error : Type 0 where
  -- elf_parser.ElfError, ar_parser.ArError and vtable_dumper.VtableError
  elf_error ar_error vtable_error : Error
  -- what Python itself raises, where nothing catches it
  index_error struct_error value_error zero_division attribute_error : Error
  -- not an error of the program: a loop of the model was given too little fuel
  out_of_fuel : Error

pub data Result {ℓ} (A : Type ℓ) : Type ℓ where
  ok : A → Result A
  raise : Error → Result A

infixl 5 ◌>>=◌
abbrev pub ◌>>=◌ {ℓ κ} : {A : Type ℓ} {B : Type κ} → Result A → (A → Result B) → Result B
ok a >>= f = f a
raise e >>= f = raise e

pub Result-cases {ℓ} :
    {A : Type ℓ} (r : Result A) → ((a : A) × (r ≡ ok a)) ⊎ ((e : Error) × (r ≡ raise e))
Result-cases (ok a) = inl (a, refl)
Result-cases (raise e) = inr (e, refl)

pub ok-injective {ℓ} : {A : Type ℓ} (a b : A) → ok a ≡ ok b → a ≡ b
ok-injective a b h = cc
