-- ===== src/Host/FilterOneTest/Passes.antt =====
-- Which tests `filterOneTest` of runners/host/base_test.py lets run.
use test_vts.Base.{
  ◌≡◌, ◌≢◌, refl, sym, ap, ◌∙◌, ◌↔◌, ◌⊎◌, inl, inr, Bool, true, false, Option, none, some, arith,
  Bool-cases,
}
use test_vts.Base.Text.{Str, codes, ends_with, str_eq, str_eq_to, str_eq_refl, str_eq_instance}
use test_vts.Common.Filter.{Filter, truthy, filter}
use test_vts.Common.Filter.Patterns.{Regex, suffix_32bit, suffix_64bit}
use test_vts.Host.FilterOneTest.{
  TestClass, Gate, passes, raises_error, raises_silent, raises_skip, lower, has_abi, is_excluded,
  filter_through_bitness, then_gate, skip_gate, given_or, verdict_gate, filter_through_test_filter,
  retry_verdict, filter_one_test,
}

-- The bitness of the ABI in use is one that the test and the test class are for. A test with a
-- suffix does not suit an unknown bitness.
pub record IsSuited (t : TestClass) (test_name : Str) : Type 0 where
  pub not_on_32 : t.abi_bitness ≡ some (codes "32") → t.skip_on_32bit_abi ≡ false
  pub not_on_64 : t.abi_bitness ≡ some (codes "64") → t.skip_on_64bit_abi ≡ false
  pub for_32 : ends_with suffix_32bit (lower test_name) ≡ true → t.abi_bitness ≡ some (codes "32")
  pub for_64 :
      ends_with suffix_64bit (lower test_name) ≡ true
      → (t.abi_bitness ≡ some (codes "64")) ⊎ (t.run_32bit_on_64bit_abi ≡ true)

pub record IsAllowed (re : Regex) (t : TestClass) (test_name : Str) (test_filter : Option Filter)
    : Type 0 where
  pub retried : (f : Filter) → t.test_filter_retry ≡ some f → filter re f test_name ≡ some true
  pub listed : filter re (given_or test_filter t.test_filter) test_name ≡ some true
  pub unskipped : t.skip_reason ≡ none
  pub suited : IsSuited t test_name

abi_is : (bits : Str) (abi : Option Str) → Bool
abi_is bits abi = elim abi [ none ↦ false | some b ↦ str_eq b bits ]

abi_to : (bits : Str) (abi : Option Str) → abi_is bits abi ≡ true → abi ≡ some bits
unfolding abi_is
abi_to bits none h = cc
abi_to bits (some b) h = ap some (str_eq_to b bits h)

has_abi_to : (bits : Str) (t : TestClass) → has_abi bits t ≡ true → t.abi_bitness ≡ some bits
unfolding has_abi abi_is
has_abi_to bits t h = abi_to bits t.abi_bitness h

abi-has_abi : (bits : Str) (t : TestClass) → t.abi_bitness ≡ some bits → has_abi bits t ≡ true
unfolding has_abi abi_is
abi-has_abi bits t h = ap (abi_is bits) h ∙ str_eq_refl bits

-- A known bitness of 32 is no empty text: the first operand of the condition says no more.
truthy_abi : (t : TestClass) → has_abi (codes "32") t ≡ true → truthy t.abi_bitness ≡ true
truthy_abi t h = rw (has_abi_to (codes "32") t h) refl

included-IsSuited :
    (t : TestClass) (test_name : Str) → is_excluded t test_name ≡ false → IsSuited t test_name
unfolding is_excluded
included-IsSuited t name h =
    let is_32 = has_abi_to (codes "32") t in
    let is_64 = has_abi_to (codes "64") t in
    record {
      not_on_32 = λ p. ground (arith, truthy_abi t, abi-has_abi (codes "32") t p);
      not_on_64 = λ p. ground (arith, abi-has_abi (codes "64") t p);
      for_32 = λ p. is_32 (ground arith);
      for_64 = λ p. elim (Bool-cases t.run_32bit_on_64bit_abi) [
        | inl runs ↦ inr runs
        | inr not_run ↦ inl (is_64 (ground arith))
      ];
    }

IsSuited-included :
    (t : TestClass) (test_name : Str) → IsSuited t test_name → is_excluded t test_name ≡ false
unfolding is_excluded
IsSuited-included t name suited =
    let not_32 : has_abi (codes "32") t ≡ true → t.skip_on_32bit_abi ≡ false =
      λ p. suited.not_on_32 (has_abi_to (codes "32") t p) in
    let not_64 : has_abi (codes "64") t ≡ true → t.skip_on_64bit_abi ≡ false =
      λ p. suited.not_on_64 (has_abi_to (codes "64") t p) in
    let is_32 : ends_with suffix_32bit (lower name) ≡ true → has_abi (codes "32") t ≡ true =
      λ p. abi-has_abi (codes "32") t (suited.for_32 p) in
    let is_64 : ends_with suffix_64bit (lower name) ≡ true
        → (has_abi (codes "64") t ≡ true) ⊎ (t.run_32bit_on_64bit_abi ≡ true) =
      λ p. elim (suited.for_64 p) [
        | inl abi ↦ inl (abi-has_abi (codes "64") t abi)
        | inr r ↦ inr r
      ] in
    ground arith

filter_through_bitness-passes :
    (t : TestClass) (test_name : Str)
    → (filter_through_bitness t test_name ≡ passes) ↔ (is_excluded t test_name ≡ false)
unfolding filter_through_bitness
filter_through_bitness-passes t name = elim (Bool-cases (is_excluded t name)) [
  | inl out ↦ (λ h. ground arith, λ h. ground arith)
  | inr kept ↦ (λ h. kept, λ h. ground arith)
]

then_gate-passes : (g next : Gate) → (then_gate g next ≡ passes) ↔ ((g ≡ passes) × (next ≡ passes))
unfolding then_gate
then_gate-passes passes next = (λ h. (refl, h), λ h. h.1)
then_gate-passes raises_error next = (λ h. cc, λ h. h.0)
then_gate-passes (raises_silent msg) next = (λ h. cc, λ h. cc)
then_gate-passes (raises_skip msg) next = (λ h. cc, λ h. cc)

verdict_gate-passes :
    (verdict : Option Bool) (unlisted next : Gate)
    → unlisted ≢ passes
    → (verdict_gate verdict unlisted next ≡ passes) ↔ ((verdict ≡ some true) × (next ≡ passes))
unfolding verdict_gate
verdict_gate-passes none unlisted next h = (λ p. cc, λ p. cc)
verdict_gate-passes (some false) unlisted next h = (λ p. absurd (h p), λ p. cc)
verdict_gate-passes (some true) unlisted next h = (λ p. (refl, p), λ p. p.1)

skip_gate-passes : (reason : Option Str) → (skip_gate reason ≡ passes) ↔ (reason ≡ none)
unfolding skip_gate
skip_gate-passes none = (λ h. refl, λ h. refl)
skip_gate-passes (some reason) = (λ h. cc, λ h. cc)

silent_not-passes : (msg : Str) → raises_silent msg ≢ passes
silent_not-passes msg h = cc

skip_not-passes : (msg : Str) → raises_skip msg ≢ passes
skip_not-passes msg h = cc

module _ (re : Regex) (test_name : Str) where
  verdict_of : Option Filter → Option Bool
  verdict_of retry = elim retry [ none ↦ some true | some f ↦ filter re f test_name ]

  verdict_of_iff :
      (retry : Option Filter)
      → (verdict_of retry ≡ some true)
        ↔ ((f : Filter) → retry ≡ some f → filter re f test_name ≡ some true)
  unfolding verdict_of
  verdict_of_iff none = (λ h f p. cc, λ h. refl)
  verdict_of_iff (some g) = (λ h f p. sym (ap verdict_of p) ∙ h, λ h. h g refl)

  retry_verdict_iff :
      (t : TestClass)
      → (retry_verdict re t test_name ≡ some true)
        ↔ ((f : Filter) → t.test_filter_retry ≡ some f → filter re f test_name ≡ some true)
  unfolding retry_verdict verdict_of
  retry_verdict_iff t = verdict_of_iff t.test_filter_retry

-- `filterOneTest` returns for exactly the tests that the retry filter and the test filter let
-- pass, in a test class that does not skip all its tests, on an ABI whose bitness suits them.
pub filter_one_test-IsAllowed :
    (re : Regex) (t : TestClass) (test_name : Str) (test_filter : Option Filter)
    → (filter_one_test re t test_name test_filter ≡ passes) ↔ IsAllowed re t test_name test_filter
unfolding filter_one_test filter_through_test_filter
filter_one_test-IsAllowed re t name f =
    let through = filter_through_test_filter re t name f in
    let bitness = filter_through_bitness t name in
    let both = then_gate-passes through bitness in
    let listed =
      verdict_gate-passes (filter re (given_or f t.test_filter) name) _ (skip_gate t.skip_reason)
        (silent_not-passes _) in
    let first =
      verdict_gate-passes (retry_verdict re t name) _ (then_gate through bitness)
        (skip_not-passes _) in
    let retried = retry_verdict_iff re name t in
    let skips = skip_gate-passes t.skip_reason in
    let excluded = filter_through_bitness-passes t name in
    (
      λ h. record {
        retried = retried.0 (first.0 h).0;
        listed = (listed.0 (both.0 (first.0 h).1).0).0;
        unskipped = skips.0 (listed.0 (both.0 (first.0 h).1).0).1;
        suited = included-IsSuited t name (excluded.0 (both.0 (first.0 h).1).1);
      },
      λ a. first.1 (
        retried.1 a.retried,
        both.1 (
          listed.1 (a.listed, skips.1 a.unskipped),
          excluded.1 (IsSuited-included t name a.suited),
        ),
      ),
    )
