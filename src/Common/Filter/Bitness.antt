-- ===== src/Common/Filter/Bitness.antt =====
-- Expanding filter items by bitness: `ExpandBitness` of utils/python/common/filter_utils.py.
use mathlib.Core.List.{append_assoc}
use mathlib.Core.Path.{ap₂, ◌≡⟨◌⟩◌, ◌∎}
use test_vts.Base.{
  ◌≡◌, refl, sym, ap, ◌∙◌, true, false, List, [], ◌∷◌, ◌++◌, inl, inr, arith, elem, elem-append,
  Bool-cases,
}
use test_vts.Base.Text.{Str, codes, str_eq_refl, str_eq_to, ends_with-append, str_eq_instance}
use test_vts.Common.ListUtils.{unique_from}
use test_vts.Common.ListUtils.Unique.{
  unique_from-append, unique_from-same, elem-unique_from, deduplicate_unique,
}
use test_vts.Common.Filter.Patterns.{
  suffix_32bit, suffix_64bit, tagged, has_bitness, bitness_forms, expand_all, expand_bitness,
}

tagged_bitness :
    (p : Str)
    → (has_bitness (tagged p suffix_32bit) ≡ true) × (has_bitness (tagged p suffix_64bit) ≡ true)
unfolding has_bitness tagged
tagged_bitness p = (
  ground (
    arith,
    append_assoc p (codes "_") suffix_32bit,
    ends_with-append suffix_32bit (p ++ codes "_"),
  ),
  ground (
    arith,
    append_assoc p (codes "_") suffix_64bit,
    ends_with-append suffix_64bit (p ++ codes "_"),
  ),
)

forms_tagged : (p : Str) → has_bitness p ≡ true → bitness_forms p ≡ p ∷ []
unfolding bitness_forms has_bitness
forms_tagged p h = ground arith

forms_plain :
    (p : Str)
    → has_bitness p ≡ false
    → bitness_forms p ≡ p ∷ tagged p suffix_32bit ∷ tagged p suffix_64bit ∷ []
unfolding bitness_forms has_bitness
forms_plain p h = ground arith

expand_all-append : (l m : List Str) → expand_all (l ++ m) ≡ expand_all l ++ expand_all m
unfolding expand_all
expand_all-append [] m = refl
expand_all-append (p ∷ l) m = rw (expand_all-append l m) (sym (append_assoc (bitness_forms p) _ _))

-- With an item, its forms have been seen.
abbrev IsClosed : List Str → Type 0
IsClosed s =
    (x : Str)
    → has_bitness x ≡ false
    → elem x s ≡ true
    → (elem (tagged x suffix_32bit) s ≡ true) × (elem (tagged x suffix_64bit) s ≡ true)

-- One item's forms, cut down to those not in `s`: expanding them again adds nothing.
one_form :
    (s : List Str) (p : Str)
    → bitness_forms p ≡ p ∷ []
    → unique_from s (expand_all (unique_from s (p ∷ []))) ≡ unique_from s (p ∷ [])
unfolding unique_from expand_all
one_form s p f = ground (arith, f)

three_forms :
    (s : List Str) (a b c : Str)
    → bitness_forms a ≡ a ∷ b ∷ c ∷ []
    → bitness_forms b ≡ b ∷ []
    → bitness_forms c ≡ c ∷ []
    → elem a s ≡ false
    → unique_from s (expand_all (unique_from s (a ∷ b ∷ c ∷ []))) ≡ unique_from s (a ∷ b ∷ c ∷ [])
unfolding unique_from expand_all
three_forms s a b c fa fb fc new = ground (arith, fa, fb, fc, str_eq_refl b, str_eq_refl c)

no_form :
    (s : List Str) (a b c : Str)
    → elem a s ≡ true
    → elem b s ≡ true
    → elem c s ≡ true
    → unique_from s (a ∷ b ∷ c ∷ []) ≡ []
unfolding unique_from
no_form s a b c ha hb hc = ground arith

forms_unique :
    (s : List Str) (p : Str)
    → IsClosed s
    → unique_from s (expand_all (unique_from s (bitness_forms p))) ≡ unique_from s (bitness_forms p)
forms_unique s p closed = elim (Bool-cases (has_bitness p)) [
  | inl tag ↦ rw (forms_tagged p tag) (one_form s p (forms_tagged p tag))
  | inr plain ↦ elim (Bool-cases (elem p s)) [
    | inl old ↦
        rw (forms_plain p plain, no_form s p _ _ old (closed p plain old).0 (closed p plain old).1)
          (unfold unique_from expand_all in refl)
    | inr new ↦ rw (forms_plain p plain) (
        three_forms s p _ _ (forms_plain p plain) (forms_tagged _ (tagged_bitness p).0)
          (forms_tagged _ (tagged_bitness p).1) new)
  ]
]

-- The set of what was seen, after one item.
forms-elem :
    (s : List Str) (p a : Str)
    → IsClosed s
    → elem a (expand_all (unique_from s (bitness_forms p)) ++ s) ≡ elem a (bitness_forms p ++ s)
forms-elem s p a closed =
    let cut = unique_from s (bitness_forms p) in
    ground (
      arith,
      elem-append a (expand_all cut) s,
      elem-append a (bitness_forms p) s,
      elem-unique_from a s (expand_all cut),
      elem-unique_from a s (bitness_forms p),
      ap (elem a) (forms_unique s p closed),
    )

plain-IsClosed :
    (s : List Str) (p x : Str)
    → IsClosed s
    → has_bitness p ≡ false
    → has_bitness x ≡ false
    → elem x (p ∷ tagged p suffix_32bit ∷ tagged p suffix_64bit ∷ s) ≡ true
    → (elem (tagged x suffix_32bit) (p ∷ tagged p suffix_32bit ∷ tagged p suffix_64bit ∷ s) ≡ true)
      × (elem (tagged x suffix_64bit) (p ∷ tagged p suffix_32bit ∷ tagged p suffix_64bit ∷ s)
          ≡ true)
plain-IsClosed s p x closed plain hx h = ground (
  arith,
  str_eq_to x p,
  str_eq_to x (tagged p suffix_32bit),
  str_eq_to x (tagged p suffix_64bit),
  str_eq_refl (tagged p suffix_32bit),
  str_eq_refl (tagged p suffix_64bit),
  tagged_bitness p,
  closed x hx,
)

tagged-IsClosed :
    (s : List Str) (p x : Str)
    → IsClosed s
    → has_bitness p ≡ true
    → has_bitness x ≡ false
    → elem x (p ∷ s) ≡ true
    → (elem (tagged x suffix_32bit) (p ∷ s) ≡ true) × (elem (tagged x suffix_64bit) (p ∷ s) ≡ true)
tagged-IsClosed s p x closed tag hx h = ground (arith, str_eq_to x p, closed x hx)

forms-IsClosed : (s : List Str) (p : Str) → IsClosed s → IsClosed (bitness_forms p ++ s)
forms-IsClosed s p closed x hx = elim (Bool-cases (has_bitness p)) [
  | inl tag ↦ rw (forms_tagged p tag) (tagged-IsClosed s p x closed tag hx)
  | inr plain ↦ rw (forms_plain p plain) (plain-IsClosed s p x closed plain hx)
]

expand-again :
    (s l : List Str)
    → IsClosed s
    → unique_from s (expand_all (unique_from s (expand_all l))) ≡ unique_from s (expand_all l)
expand-again s [] closed = unfold expand_all unique_from in refl
expand-again s (p ∷ l) closed =
    let cut = unique_from s (bitness_forms p) in
    let more = unique_from (bitness_forms p ++ s) (expand_all l) in
    let step : unique_from s (expand_all (p ∷ l)) ≡ cut ++ more =
      unfold expand_all in unique_from-append s (bitness_forms p) (expand_all l) in
    unique_from s (expand_all (unique_from s (expand_all (p ∷ l))))
    ≡⟨ ap (λ m. unique_from s (expand_all m)) step ⟩ unique_from s (expand_all (cut ++ more))
    ≡⟨ ap (unique_from s) (expand_all-append cut more)
      ∙ unique_from-append s (expand_all cut) (expand_all more) ⟩
      unique_from s (expand_all cut) ++ unique_from (expand_all cut ++ s) (expand_all more)
    ≡⟨ ap₂ (λ l m. l ++ m) (forms_unique s p closed)
        (unique_from-same _ _ (expand_all more) (λ a. forms-elem s p a closed)) ⟩
      cut ++ unique_from (bitness_forms p ++ s) (expand_all more)
    ≡⟨ ap (λ m. cut ++ m) (expand-again (bitness_forms p ++ s) l (forms-IsClosed s p closed)) ⟩
      cut ++ more
    ≡⟨ sym step ⟩ unique_from s (expand_all (p ∷ l)) ∎

-- Expanding twice is expanding once: the same items in the same order.
pub expand_bitness_idem : (l : List Str) → expand_bitness (expand_bitness l) ≡ expand_bitness l
unfolding expand_bitness
expand_bitness_idem l = simp deduplicate_unique (expand-again [] l (λ x _ h. cc))
