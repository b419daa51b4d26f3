-- ===== src/Base/Text.antt =====
-- Python strings as lists of character codes, with the string methods that the program calls.
use Prim.Native.Char.{code}
use Prim.Native.String.{String}
use test_vts.Base.{
  ℕ, ◌≡◌, refl, ◌↔◌, Bool, true, false, ◌&&◌, ◌||◌, List, [], ◌∷◌, ◌++◌, arith, ◌==◌, Eq,
}

abbrev pub Str : Type 0
Str = List ℕ

abbrev pub codes : String → Str
codes String.[] = []
codes (String.◌∷◌ c s) = code c ∷ codes s

abbrev pub str_eq : Str → Str → Bool
str_eq [] [] = true
str_eq [] (d ∷ t) = false
str_eq (c ∷ s) [] = false
str_eq (c ∷ s) (d ∷ t) = c == d && str_eq s t

pub str_eq_to : (s t : Str) → str_eq s t ≡ true → s ≡ t
str_eq_to [] [] h = refl
str_eq_to [] (d ∷ t) h = cc
str_eq_to (c ∷ s) [] h = cc
str_eq_to (c ∷ s) (d ∷ t) h = ground (arith, str_eq_to s t)

pub str_eq_refl : (s : Str) → str_eq s s ≡ true
str_eq_refl [] = refl
str_eq_refl (c ∷ s) = ground (arith, str_eq_refl s)

pub str_eq_iff : (s t : Str) → (str_eq s t ≡ true) ↔ (s ≡ t)
str_eq_iff s t = (str_eq_to s t, λ p. rw p (str_eq_refl t))

instance abbrev pub str_eq_instance : Eq Str
str_eq_instance = record { beq = str_eq; decides = str_eq_iff }

-- `s.startswith(p)`, `s.endswith(p)`
abbrev pub starts_with : Str → Str → Bool
starts_with [] s = true
starts_with (c ∷ p) [] = false
starts_with (c ∷ p) (d ∷ s) = c == d && starts_with p s

abbrev pub ends_with : Str → Str → Bool
ends_with p [] = str_eq p []
ends_with p (d ∷ s) = str_eq p (d ∷ s) || ends_with p s

pub ends_with-append : (p s : Str) → ends_with p (s ++ p) ≡ true
ends_with-append [] [] = refl
ends_with-append (c ∷ p) [] = ground (arith, str_eq_refl (c ∷ p))
ends_with-append p (d ∷ s) = ground (arith, ends_with-append p s)

pub starts_with-append : (p s : Str) → starts_with p (p ++ s) ≡ true
starts_with-append [] s = refl
starts_with-append (c ∷ p) s = ground (arith, starts_with-append p s)
