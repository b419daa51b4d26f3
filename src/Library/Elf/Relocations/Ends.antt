-- ===== src/Library/Elf/Relocations/Ends.antt =====
-- utils/python/library/elf_parser.py: the loop of `_UnpackAndroidRela` ends, since every group takes
-- words from the section.
use test_vts.Base.{
  ℕ, zero, suc, ◌+◌, ◌-◌, ◌*◌, ◌^◌, ◌≤◌, ◌<◌, ◌≡◌, ◌≢◌, Bool, true, false, Bool-cases, inl, inr,
  ◌||◌, not, take, List, [], ◌∷◌, ◌++◌, arith, ltb, ◌==◌, drop, length, length-drop,
}
use Prim.Native.Nat.{bit_and, bit_or}
use test_vts.Base.Int.{ℤ, pos, ◌+ℤ◌}
use test_vts.Base.Text.{str_eq, codes}
use test_vts.Library.Result.{
  Result, ok, raise, ◌>>=◌, elf_error, ar_error, vtable_error, index_error, struct_error,
  value_error, zero_division, attribute_error, out_of_fuel,
}
use test_vts.Library.Structs.{Rel}
use test_vts.Library.Structs.Layouts.{Class}
use test_vts.Library.Sleb128.{decode_loop, decode_sleb128}
use test_vts.Library.Elf.Relocations.{
  popped, pop_word, word_unless, word_if, Group, Unpacking, unpack_entries, unpack_group, ltb_ℤ,
  groups_loop, unpack_data,
}

module _ {ℓ} {A : Type ℓ} (position : A → ℕ) (size : ℕ) where
  abbrev Position : ℕ → Result A → Type 0
  Position from (ok a) = (from ≤ position a) × (position a ≤ size)
  Position from (raise e) = e ≢ out_of_fuel

  -- Fuel is not what is missing, and the position that is reached lies between `from` and the end.
  record Reaches (from : ℕ) (r : Result A) : Type 0 where
    pub holds : Position from r

  Reaches-weaken : (a b : ℕ) (r : Result A) → b ≤ a → Reaches a r → Reaches b r
  Reaches-weaken a b (raise e) h g = record { holds = g.holds }
  Reaches-weaken a b (ok x) h g = let k = g.holds in record { holds = (omega (arith, k), k.1) }

module _ {ℓ κ} {A : Type ℓ} {B : Type κ} (position : A → ℕ) (position' : B → ℕ) (size : ℕ) where
  Reaches-bind :
      (from : ℕ) (r : Result A) (k : A → Result B)
      → Reaches position size from r
      → ((a : A)
          → from ≤ position a
          → position a ≤ size
          → Reaches position' size (position a) (k a))
      → Reaches position' size from (r >>= k)
  Reaches-bind from (raise e) k h g = record { holds = h.holds }
  Reaches-bind from (ok a) k h g =
      let (low, high) = h.holds in
      Reaches-weaken position' size (position a) from (k a) low (g a low high)

decode_loop-Reaches :
    (l : List ℕ) (value shift num : ℕ)
    → Reaches (λ (x : ℤ × ℕ). x.1) (num + length l) (suc num) (decode_loop l value shift num)
unfolding decode_loop
decode_loop-Reaches [] value shift num = record { holds = λ h. cc }
decode_loop-Reaches (b ∷ l) value shift num =
    let value' = bit_or value (bit_and b 0x7f * 2 ^ shift) in
    let same : suc num + length l ≡ num + suc (length l) = omega arith in
    elim (Bool-cases (bit_and b 0x80 == 0)) [
      | inl last ↦ rw last (record { holds = (omega arith, omega arith) })
      | inr more ↦
          rw (more, ← same)
            (Reaches-weaken _ _ (suc (suc num)) (suc num) _ (omega arith)
              (decode_loop-Reaches l value' (shift + 7) (suc num)))
    ]

popped-Reaches :
    (size cur : ℕ) (r : Result (ℤ × ℕ))
    → cur < size
    → Reaches (λ (x : ℤ × ℕ). x.1) (size - cur) 1 r
    → Reaches (λ (x : ℤ × ℕ). x.1) size (suc cur) (popped cur r)
unfolding popped
popped-Reaches size cur (ok (value, num)) h g =
    let (low, high) = g.holds in record { holds = (omega (arith, low), omega (arith, high)) }
popped-Reaches size cur (raise elf_error) h g = record { holds = g.holds }
popped-Reaches size cur (raise ar_error) h g = record { holds = g.holds }
popped-Reaches size cur (raise vtable_error) h g = record { holds = g.holds }
popped-Reaches size cur (raise index_error) h g = record { holds = λ e. cc }
popped-Reaches size cur (raise struct_error) h g = record { holds = g.holds }
popped-Reaches size cur (raise value_error) h g = record { holds = g.holds }
popped-Reaches size cur (raise zero_division) h g = record { holds = g.holds }
popped-Reaches size cur (raise attribute_error) h g = record { holds = g.holds }
popped-Reaches size cur (raise out_of_fuel) h g = record { holds = g.holds }

pop_word-Reaches :
    (bytes : List ℕ) (cur : ℕ)
    → Reaches (λ (x : ℤ × ℕ). x.1) (length bytes) (suc cur) (pop_word bytes cur)
unfolding pop_word decode_sleb128
pop_word-Reaches bytes cur = elim (Bool-cases (ltb cur (length bytes))) [
  | inl inside ↦ rw inside (
      popped-Reaches (length bytes) cur _ (ground arith) (
        let left : 0 + length (drop cur bytes) ≡ length bytes - cur =
          omega (arith, length-drop cur bytes) in
        rw left at (decode_loop-Reaches (drop cur bytes) 0 0 0)))
  | inr past ↦ rw past (record { holds = λ e. cc })
]

word_if-Reaches :
    (wanted : Bool) (value : ℤ) (bytes : List ℕ) (cur : ℕ)
    → cur ≤ length bytes
    → Reaches (λ (x : ℤ × ℕ). x.1) (length bytes) cur (word_if wanted value bytes cur)
unfolding word_if
word_if-Reaches true value bytes cur h =
    Reaches-weaken _ _ (suc cur) cur _ (omega arith) (pop_word-Reaches bytes cur)
word_if-Reaches false value bytes cur h = record { holds = (omega arith, h) }

word_unless-Reaches :
    (grouped : Bool) (value : ℤ) (bytes : List ℕ) (cur : ℕ)
    → cur ≤ length bytes
    → Reaches (λ (x : ℤ × ℕ). x.1) (length bytes) cur (word_unless grouped value bytes cur)
unfolding word_unless
word_unless-Reaches false value bytes cur h =
    Reaches-weaken _ _ (suc cur) cur _ (omega arith) (pop_word-Reaches bytes cur)
word_unless-Reaches true value bytes cur h = record { holds = (omega arith, h) }

unpack_entries-Reaches :
    (c : Class) (bytes : List ℕ) (g : Group) (n : ℕ) (st : Unpacking)
    → st.cur ≤ length bytes
    → Reaches
        (λ (x : List Rel × Unpacking). x.1.cur)
        (length bytes)
        st.cur
        (unpack_entries c bytes g n st)
unfolding unpack_entries
unpack_entries-Reaches c bytes g zero st h = record { holds = (omega arith, h) }
unpack_entries-Reaches c bytes g (suc n) st h =
    Reaches-bind _ _ _ _ _ _ (word_unless-Reaches _ _ bytes st.cur h) (λ d _ h₁.
      Reaches-bind _ _ _ _ _ _ (word_unless-Reaches _ _ bytes d.1 h₁) (λ i _ h₂.
        Reaches-bind _ _ _ _ _ _ (word_if-Reaches _ _ bytes i.1 h₂) (λ a _ h₃.
          Reaches-bind _ _ _ _ _ _ (unpack_entries-Reaches c bytes g n _ h₃)
            (λ r _ h₄. record { holds = (omega arith, h₄) }))))

unpack_group-Reaches :
    (c : Class) (bytes : List ℕ) (st : Unpacking)
    → Reaches
        (λ (x : ℤ × (List Rel × Unpacking)). x.1.1.cur)
        (length bytes)
        (suc st.cur)
        (unpack_group c bytes st)
unfolding unpack_group
unpack_group-Reaches c bytes st = Reaches-bind _ _ _ _ _ _ (pop_word-Reaches bytes st.cur) (λ s _ _.
    Reaches-bind _ _ _ _ _ _ (Reaches-weaken _ _ _ _ _ (omega arith) (pop_word-Reaches bytes s.1))
      (λ f _ h₂. Reaches-bind _ _ _ _ _ _ (word_if-Reaches _ _ bytes f.1 h₂) (λ d _ h₃.
        Reaches-bind _ _ _ _ _ _ (word_if-Reaches _ _ bytes d.1 h₃) (λ i _ h₄.
          Reaches-bind _ _ _ _ _ _ (word_if-Reaches _ _ bytes i.1 h₄) (λ a _ h₅.
            Reaches-bind _ _ _ _ _ _ (unpack_entries-Reaches c bytes _ _ _ h₅)
              (λ r _ h₆. record { holds = (omega arith, h₆) }))))))

>>=-ne {ℓ κ} :
    {A : Type ℓ} {B : Type κ} (position : A → ℕ) (size from : ℕ) (r : Result A) (k : A → Result B)
    → Reaches position size from r
    → ((a : A) → from ≤ position a → position a ≤ size → k a ≢ raise out_of_fuel)
    → (r >>= k) ≢ raise out_of_fuel
>>=-ne position size from (raise e) k h g = λ p. let n = h.holds in grind arith
>>=-ne position size from (ok a) k h g = let (low, high) = h.holds in g a low high

extended-ne :
    (rels : List Rel) (r : Result (List Rel))
    → r ≢ raise out_of_fuel
    → (r >>= λ rest. ok (rels ++ rest)) ≢ raise out_of_fuel
extended-ne rels (raise e) h = h
extended-ne rels (ok rest) h = λ p. cc

groups_loop-ne :
    (fuel : ℕ) (c : Class) (bytes : List ℕ) (total_count current_count : ℤ) (st : Unpacking)
    → st.cur ≤ length bytes
    → length bytes < fuel + st.cur
    → groups_loop fuel c bytes total_count current_count st ≢ raise out_of_fuel
unfolding groups_loop
groups_loop-ne zero c bytes total current st h hf = absurd (omega arith)
groups_loop-ne (suc fuel) c bytes total current st h hf = elim (Bool-cases (ltb_ℤ current total)) [
  | inr done ↦ rw (groups_loop, done) (λ p. cc)
  | inl more ↦
      rw (groups_loop, more)
        (>>=-ne _ (length bytes) (suc st.cur) (unpack_group c bytes st) _
          (unpack_group-Reaches c bytes st)
          (λ r low high.
            extended-ne r.1.0 _
              (groups_loop-ne fuel c bytes total (current +ℤ r.0) r.1.1 high (omega arith))))
]

-- The loop of _UnpackAndroidRela ends on every section, whatever counts and flags it declares, zero
-- and negative ones included: it returns relocations or raises an error of the program.
pub unpack_data-ends : (c : Class) (bytes : List ℕ) → unpack_data c bytes ≢ raise out_of_fuel
unfolding unpack_data
unpack_data-ends c bytes =
    elim (Bool-cases (ltb (length bytes) 4 || not (str_eq (take 4 bytes) (codes "APS2")))) [
      | inl refused ↦ rw refused (λ p. cc)
      | inr begins ↦ rw begins (
          >>=-ne _ (length bytes) 5 (pop_word bytes 4) _ (pop_word-Reaches bytes 4) (λ t _ _.
            >>=-ne _ (length bytes) (suc t.1) (pop_word bytes t.1) _ (pop_word-Reaches bytes t.1)
              (λ o _ high.
                groups_loop-ne (suc (length bytes)) c bytes t.0 (pos 0) _ high (omega arith))))
    ]
