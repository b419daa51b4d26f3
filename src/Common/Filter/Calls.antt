-- ===== src/Common/Filter/Calls.antt =====
-- Sequences of calls on a `Filter` of utils/python/common/filter_utils.py.
use test_vts.Base.{
  ◌∙◌, ◌≡◌, ◌≢◌, refl, ap, Bool, true, false, List, [], ◌∷◌, ◌++◌, none, some, inl, inr, arith, All,
  any, Option-cases,
}
use test_vts.Base.Text.{Str, codes, str_eq_instance}
use test_vts.Common.Filter.{
  Filter, Config, blank, refresh_filter, positive_items, negative_items, set_include_filter,
  set_exclude_filter, init, add_to_include_filter, add_to_exclude_filter, expand_bitness_now,
  expand_filters, listed, is_in_include_filter, is_in_exclude_filter, filter, or_empty,
}
use test_vts.Common.Filter.Patterns.{
  Regex, classify, split_filter_list, in_regex_list, whole_match, expand_appendix,
}
use test_vts.Common.Filter.Correct.{
  IsSettled, selects, includes, excludes, has_include, with_prefix, filter-refresh_filter,
}

-- A call of a method that changes the object.
pub data Call : Type 0 where
  assign_include assign_exclude : List Str → Call
  add_include add_exclude : List Str → Bool → Call
  refresh expand_bits : Call
  expand_appendices : List Str → Str → Call

unfoldable pub call : Regex → Filter → Call → Filter
call re f (assign_include items) = set_include_filter re items f
call re f (assign_exclude items) = set_exclude_filter re items f
call re f (add_include items auto_refresh) = add_to_include_filter re items auto_refresh f
call re f (add_exclude items auto_refresh) = add_to_exclude_filter re items auto_refresh f
call re f refresh = refresh_filter re f
call re f expand_bits = expand_bitness_now f
call re f (expand_appendices appendices pattern) = (expand_filters re appendices pattern f).0

unfoldable pub calls : Regex → Filter → List Call → Filter
calls re f [] = f
calls re f (c ∷ cs) = calls re (call re f c) cs

module _ (re : Regex) where
  abbrev AllCompile : List Str → Type 0
  AllCompile l = All (λ r. re.compiles r ≡ true) l

  -- The regular expressions that the object keeps are valid, and none is kept with them disabled.
  pub record IsSound (f : Filter) : Type 0 where
    pub include : AllCompile f.include_filter_regex
    pub exclude : AllCompile f.exclude_filter_regex
    pub settled : IsSettled f

  split-AllCompile : (l : List Str) → AllCompile (split_filter_list re l).1
  unfolding split_filter_list classify
  split-AllCompile [] = tt
  split-AllCompile (p ∷ l) = ground (arith, split-AllCompile l)

  refresh-IsSound : (f : Filter) → IsSound f → IsSound (refresh_filter re f)
  unfolding refresh_filter
  refresh-IsSound f s = record {
    include = ground (arith, s.include, split-AllCompile (positive_items f));
    exclude = ground (arith, s.exclude, split-AllCompile (negative_items f));
    settled = λ h. ground (arith, s.settled);
  }

  refresh_with :
      (f : Filter) (items : List Str) → IsSound f → IsSound (set_include_filter re items f)
  unfolding set_include_filter
  refresh_with f items s =
      refresh-IsSound (record f { include_filter = items })
        (record { include = s.include; exclude = s.exclude; settled = s.settled })

  refresh_without :
      (f : Filter) (items : List Str) → IsSound f → IsSound (set_exclude_filter re items f)
  unfolding set_exclude_filter
  refresh_without f items s =
      refresh-IsSound (record f { exclude_filter = items })
        (record { include = s.include; exclude = s.exclude; settled = s.settled })

  expand_filters-IsSound :
      (appendices : List Str) (pattern : Str) (f : Filter)
      → IsSound f
      → IsSound (expand_filters re appendices pattern f).0
  unfolding expand_filters
  expand_filters-IsSound appendices pattern f s =
      elim (Option-cases (expand_appendix re f.include_filter appendices pattern)) [
        | inl e ↦ rw (e, expand_filters) s
        | inr (l, e) ↦
            let f' = set_include_filter re l f in
            let s' : IsSound f' = refresh_with f l s in
            elim (Option-cases (expand_appendix re f'.exclude_filter appendices pattern)) [
              | inl e' ↦ rw (e, expand_filters) (rw e' s')
              | inr (m, e') ↦ rw (e, expand_filters) (rw e' (refresh_without f' m s'))
            ]
      ]

  pub call-IsSound : (c : Call) (f : Filter) → IsSound f → IsSound (call re f c)
  unfolding call add_to_include_filter add_to_exclude_filter expand_bitness_now
  call-IsSound (assign_include items) f s = refresh_with f items s
  call-IsSound (assign_exclude items) f s = refresh_without f items s
  call-IsSound (add_include items true) f s =
      refresh-IsSound (record f { include_filter = f.include_filter ++ items })
        (record { include = s.include; exclude = s.exclude; settled = s.settled })
  call-IsSound (add_include items false) f s = record {
    include = s.include;
    exclude = s.exclude;
    settled = s.settled;
  }
  call-IsSound (add_exclude items true) f s =
      refresh-IsSound (record f { exclude_filter = f.exclude_filter ++ items })
        (record { include = s.include; exclude = s.exclude; settled = s.settled })
  call-IsSound (add_exclude items false) f s = record {
    include = s.include;
    exclude = s.exclude;
    settled = s.settled;
  }
  call-IsSound refresh f s = refresh-IsSound f s
  call-IsSound expand_bits f s = record {
    include = s.include;
    exclude = s.exclude;
    settled = s.settled;
  }
  call-IsSound (expand_appendices appendices pattern) f s =
      expand_filters-IsSound appendices pattern f s

  init-IsSound : (c : Config) → IsSound (init re c)
  unfolding init
  init-IsSound c = refresh_without _ c.exclude_filter (
      refresh_with (blank c) c.include_filter
        (record { include = tt; exclude = tt; settled = λ _. (refl, refl) }))

  pub calls-IsSound : (cs : List Call) (f : Filter) → IsSound f → IsSound (calls re f cs)
  unfolding calls
  calls-IsSound [] f s = s
  calls-IsSound (c ∷ cs) f s = calls-IsSound cs (call re f c) (call-IsSound c f s)

  in_regex_list-total :
      (item : Str) (l : List Str)
      → AllCompile l
      → in_regex_list re item l ≡ some (any (λ r. whole_match re r item) l)
  unfolding in_regex_list
  in_regex_list-total item [] h = refl
  in_regex_list-total item (r ∷ l) h = ground (arith, in_regex_list-total item l h.1)

  listed-total : (item : Str) (exact l : List Str) → AllCompile l → listed re exact l item ≢ none
  unfolding listed
  listed-total item exact l h = ground (arith, in_regex_list-total item l h)

  include-total : (f : Filter) (item : Str) → IsSound f → is_in_include_filter re f item ≢ none
  unfolding is_in_include_filter
  include-total f item s = ground (
    arith,
    listed-total item f.include_filter_exact f.include_filter_regex s.include,
    listed-total (or_empty f.module_name ++ codes "." ++ item) f.include_filter_exact
        f.include_filter_regex s.include,
  )

  exclude-total : (f : Filter) (item : Str) → IsSound f → is_in_exclude_filter re f item ≢ none
  unfolding is_in_exclude_filter
  exclude-total f item s = ground (
    arith,
    listed-total item f.exclude_filter_exact f.exclude_filter_regex s.exclude,
    listed-total (or_empty f.module_name ++ codes "." ++ item) f.exclude_filter_exact
        f.exclude_filter_regex s.exclude,
  )

  filter-total : (f : Filter) (item : Str) → IsSound f → filter re f item ≢ none
  unfolding filter
  filter-total f item s = ground (arith, include-total f item s, exclude-total f item s)

  -- Whatever methods were called on a constructed filter, with valid patterns or not, `Filter` returns:
  -- it does not meet a regular expression that does not compile.
  pub filter-calls :
      (c : Config) (cs : List Call) (item : Str) → filter re (calls re (init re c) cs) item ≢ none
  filter-calls c cs item =
      filter-total (calls re (init re c) cs) item (calls-IsSound cs (init re c) (init-IsSound c))

  -- Whatever methods were called on a constructed filter, after a refresh `Filter` returns, and its
  -- verdict is the one that `selects` reads off the items and the flags.
  pub filter-refresh_calls :
      (c : Config) (cs : List Call) (item : Str)
      → filter re (refresh_filter re (calls re (init re c) cs)) item
        ≡ some (selects re (calls re (init re c) cs) item)
  filter-refresh_calls c cs item =
      filter-refresh_filter re _ (calls-IsSound cs (init re c) (init-IsSound c)).settled item

-- The items and the flags that a constructor call gives.
abbrev pub given : Config → Filter
given c = record (blank c) { include_filter = c.include_filter; exclude_filter = c.exclude_filter }

-- The verdict reads the items and the flags, and no list that a refresh derives from them.
selects-refresh :
    (re : Regex) (f : Filter) (regex bitness : Bool) (items : List Str)
    → f.enable_regex ≡ regex
    → f.expand_bitness_on ≡ bitness
    → (item : Str)
    → selects re (record (refresh_filter re f) { exclude_filter = items }) item
      ≡ selects re (record f { exclude_filter = items }) item
unfolding selects includes excludes has_include with_prefix refresh_filter
selects-refresh re f true true items r b item = simp (r, b)
selects-refresh re f true false items r b item = simp (r, b)
selects-refresh re f false true items r b item = simp (r, b)
selects-refresh re f false false items r b item = simp (r, b)

module _ (re : Regex) where
  -- `Filter` of a new object returns the verdict that `selects` reads off the constructor's arguments.
  pub filter-init :
      (c : Config) (item : Str) → filter re (init re c) item ≡ some (selects re (given c) item)
  unfolding init set_include_filter set_exclude_filter
  filter-init c item =
      let f : Filter = record (blank c) { include_filter = c.include_filter } in
      let base : IsSound re f = record {
        include = tt;
        exclude = tt;
        settled = λ _. (refl, refl);
      } in
      filter-refresh_filter re _ (refresh-IsSound re f base).settled item
      ∙ ap some (selects-refresh re f _ _ c.exclude_filter refl refl item)
