-- ===== src/Editorial/Corroboration/Independence.antt =====
-- What the searches of `src/editorial/corroboration/evidence-corroboration.service.ts` may find and
-- spend.
use telegram_news_agent.Prelude.{
  ℕ, suc, ◌+◌, ◌≤◌, ◌≡◌, refl, ap, ◌∙◌, inl, inr, String, Bool, true, false, not, ◌&&◌, ◌||◌, List,
  [], ◌∷◌, ◌++◌, length, if◌then◌else◌, arith, str_eq, eq_iff, eq_refl, Bool-cases, Option-cases,
}
use telegram_news_agent.Effects.{Outcome, returns, throws}
use telegram_news_agent.Editorial.Corroboration.{
  Evidence, Source, SearchResult, Progress, Ports, Options, add, has, keys, accept, add_source,
  add_sources, add_result, spend, world_after, search_all, publisher_of, start,
}

-- Every key stands once.
unfoldable pub is_distinct : List String → Bool
is_distinct [] = true
is_distinct (k ∷ rest) = not (has k rest) && is_distinct rest

-- None of the first keys is among the second.
unfoldable pub is_disjoint : List String → List String → Bool
is_disjoint [] ys = true
is_disjoint (k ∷ rest) ys = not (has k ys) && is_disjoint rest ys

unfoldable pub is_subset : List String → List String → Bool
is_subset [] ys = true
is_subset (k ∷ rest) ys = has k ys && is_subset rest ys

-- What holds in each round of the loops.
pub record IsIndependent (known : List String) (progress : Progress) : Type 0 where
  pub distinct : is_distinct (keys progress.found) ≡ true
  pub apart : is_disjoint (keys progress.found) known ≡ true
  pub vouched : is_subset progress.strong (keys progress.found) ≡ true
  pub once : is_distinct progress.strong ≡ true

has-append : (k : String) (xs ys : List String) → has k (xs ++ ys) ≡ (has k xs || has k ys)
has-append k [] ys = refl
has-append k (x ∷ xs) ys = ground (arith, has-append k xs ys)

keys-append : (xs ys : List (String × Evidence)) → keys (xs ++ ys) ≡ keys xs ++ keys ys
keys-append [] ys = refl
keys-append ((k, e) ∷ xs) ys = ap (λ ks. k ∷ ks) (keys-append xs ys)

str_eq-sym : (a b : String) → str_eq a b ≡ str_eq b a
str_eq-sym a b = ground (arith, eq_iff a b, eq_iff b a)

is_distinct-snoc :
    (xs : List String) (k : String)
    → (is_distinct xs ≡ true)
    → (has k xs ≡ false)
    → (is_distinct (xs ++ k ∷ []) ≡ true)
unfolding is_distinct
is_distinct-snoc [] k h n = refl
is_distinct-snoc (x ∷ xs) k h n =
    ground (arith, is_distinct-snoc xs k, has-append x xs (k ∷ []), str_eq-sym x k)

is_disjoint-snoc :
    (xs ys : List String) (k : String)
    → (is_disjoint xs ys ≡ true)
    → (has k ys ≡ false)
    → (is_disjoint (xs ++ k ∷ []) ys ≡ true)
unfolding is_disjoint
is_disjoint-snoc [] ys k h n = ground arith
is_disjoint-snoc (x ∷ xs) ys k h n = ground (arith, is_disjoint-snoc xs ys k)

is_subset-append :
    (xs ys zs : List String) → (is_subset xs ys ≡ true) → (is_subset xs (ys ++ zs) ≡ true)
unfolding is_subset
is_subset-append [] ys zs h = refl
is_subset-append (x ∷ xs) ys zs h = ground (arith, is_subset-append xs ys zs, has-append x ys zs)

is_subset-snoc :
    (xs ys : List String) (k : String)
    → (is_subset xs ys ≡ true)
    → (is_subset (xs ++ k ∷ []) (ys ++ k ∷ []) ≡ true)
unfolding is_subset
is_subset-snoc [] ys k h = ground (arith, has-append k ys (k ∷ []), eq_refl k)
is_subset-snoc (x ∷ xs) ys k h = ground (arith, is_subset-snoc xs ys k, has-append x ys (k ∷ []))

is_subset-add :
    (xs ys : List String) (k : String)
    → (is_subset xs ys ≡ true)
    → (is_subset (add k xs) (ys ++ k ∷ []) ≡ true)
is_subset-add xs ys k h = elim (Bool-cases (has k xs)) [
  | inl e ↦ ground (arith, is_subset-append xs ys (k ∷ []))
  | inr e ↦ ground (arith, is_subset-snoc xs ys k)
]

is_distinct-add :
    (xs : List String) (k : String) → (is_distinct xs ≡ true) → (is_distinct (add k xs) ≡ true)
is_distinct-add xs k h = ground (arith, is_distinct-snoc xs k)

start-IsIndependent : (known : List String) → IsIndependent known start
unfolding is_distinct is_disjoint is_subset
start-IsIndependent known = record { distinct = refl; apart = refl; vouched = refl; once = refl }

module _ {W : Type 0} (p : Ports W) (options : Options) (known : List String) where
  strong-after :
      (is_strong : Bool) (publisher : String) (progress : Progress)
      → IsIndependent known progress
      → (is_subset
            (if is_strong then add publisher progress.strong else progress.strong)
            (keys progress.found ++ publisher ∷ [])
          ≡ true)
        × (is_distinct (if is_strong then add publisher progress.strong else progress.strong)
            ≡ true)
  strong-after true publisher progress h = (
    is_subset-add progress.strong (keys progress.found) publisher h.vouched,
    is_distinct-add progress.strong publisher h.once,
  )
  strong-after false publisher progress h =
      (is_subset-append progress.strong (keys progress.found) (publisher ∷ []) h.vouched, h.once)

  accept-IsIndependent :
      (publisher : String) (source : Source) (progress : Progress)
      → IsIndependent known progress
      → (has publisher known ≡ false)
      → (has publisher (keys progress.found) ≡ false)
      → IsIndependent known (accept p options publisher source progress)
  unfolding accept
  accept-IsIndependent publisher source progress h u v = record {
    distinct =
        ap is_distinct (keys-append progress.found _)
        ∙ is_distinct-snoc (keys progress.found) publisher h.distinct v;
    apart =
        ap (λ ks. is_disjoint ks known) (keys-append progress.found _)
        ∙ is_disjoint-snoc (keys progress.found) known publisher h.apart u;
    vouched =
        ap (is_subset _) (keys-append progress.found _)
        ∙ (strong-after source.is_strong publisher progress h).0;
    once = (strong-after source.is_strong publisher progress h).1;
  }

  add_source-IsIndependent :
      (now : ℕ) (source : Source) (progress : Progress)
      → IsIndependent known progress
      → IsIndependent known (add_source p options known now source progress)
  unfolding add_source
  add_source-IsIndependent now source progress h =
      elim (Option-cases (publisher_of p options source.url)) [
        | inl e ↦ ground (arith, h)
        | inr (publisher, e) ↦ ground (arith, h, accept-IsIndependent publisher source progress h)
      ]

  add_sources-IsIndependent :
      (now : ℕ) (sources : List Source) (progress : Progress)
      → IsIndependent known progress
      → IsIndependent known (add_sources p options known now sources progress)
  unfolding add_sources
  add_sources-IsIndependent now [] progress h = h
  add_sources-IsIndependent now (source ∷ rest) progress h = ground (
    arith,
    h,
    add_sources-IsIndependent now rest (add_source p options known now source progress)
        (add_source-IsIndependent now source progress h),
  )

  add_result-IsIndependent :
      (progress : Progress) (o : Outcome String W SearchResult)
      → IsIndependent known progress
      → IsIndependent known (add_result p options known progress o)
  unfolding add_result
  add_result-IsIndependent progress (returns result w) h =
      add_sources-IsIndependent (p.now w) result.sources _
        (record { distinct = h.distinct; apart = h.apart; vouched = h.vouched; once = h.once })
  add_result-IsIndependent progress (throws code w) h = record {
    distinct = h.distinct;
    apart = h.apart;
    vouched = h.vouched;
    once = h.once;
  }

  search_all-IsIndependent_step :
      (requests : List String) (progress : Progress) (w : W)
      → IsIndependent known progress
      → IsIndependent known (search_all p options known requests progress w).0
  unfolding search_all
  search_all-IsIndependent_step [] progress w h = h
  search_all-IsIndependent_step (request ∷ rest) progress w h = ground (
    arith,
    h,
    search_all-IsIndependent_step rest
        (add_result p options known (spend progress) (p.find request w))
        (world_after (p.find request w))
        (add_result-IsIndependent (spend progress) (p.find request w)
          (record { distinct = h.distinct; apart = h.apart; vouched = h.vouched; once = h.once })),
  )

  -- However the searches answer or fail, the publishers that they find are different ones, none of
  -- them is a known one, and the strong ones are among them, each counted once.
  pub search_all-IsIndependent :
      (requests : List String) (w : W)
      → IsIndependent known (search_all p options known requests start w).0
  search_all-IsIndependent requests w =
      search_all-IsIndependent_step requests start w (start-IsIndependent known)

  -- `add_sources` leaves the counters of the outer loop alone.
  add_source-searches :
      (now : ℕ) (source : Source) (progress : Progress)
      → ((add_source p options known now source progress).searches ≡ progress.searches)
        × ((add_source p options known now source progress).failed_searches
            ≡ progress.failed_searches)
  unfolding add_source accept
  add_source-searches now source progress = ground arith

  add_sources-searches :
      (now : ℕ) (sources : List Source) (progress : Progress)
      → ((add_sources p options known now sources progress).searches ≡ progress.searches)
        × ((add_sources p options known now sources progress).failed_searches
            ≡ progress.failed_searches)
  unfolding add_sources
  add_sources-searches now [] progress = (refl, refl)
  add_sources-searches now (source ∷ rest) progress = ground (
    arith,
    add_source-searches now source progress,
    add_sources-searches now rest (add_source p options known now source progress),
  )

  add_result-searches :
      (progress : Progress) (o : Outcome String W SearchResult)
      → ((add_result p options known progress o).searches ≡ progress.searches)
        × ((add_result p options known progress o).failed_searches ≤ suc progress.failed_searches)
  unfolding add_result
  add_result-searches progress (returns result w) = ground (
    arith,
    add_sources-searches (p.now w) result.sources
        (record progress { usage_events = progress.usage_events ++ result.usage_events }),
  )
  add_result-searches progress (throws code w) = ground arith

  -- What the outer loop spends, where `calls` counts the searches that reached the search port.
  module _ (calls : W → ℕ)
      (counted : (request : String) (w : W)
        → calls (world_after (p.find request w)) ≡ suc (calls w)) where
    search_all-searches :
        (requests : List String) (progress : Progress) (w : W)
        → (progress.failed_searches ≤ progress.searches)
        → (progress.searches ≤ options.max_searches)
        → ((search_all p options known requests progress w).0.failed_searches
            ≤ (search_all p options known requests progress w).0.searches)
          × ((search_all p options known requests progress w).0.searches ≤ options.max_searches)
          × ((search_all p options known requests progress w).0.searches
              ≤ progress.searches + length requests)
          × ((search_all p options known requests progress w).0.searches + calls w
              ≡ progress.searches + calls (search_all p options known requests progress w).1)
    unfolding search_all
    search_all-searches [] progress w f b = ground arith
    search_all-searches (request ∷ rest) progress w f b = ground (
      arith,
      counted request w,
      add_result-searches (spend progress) (p.find request w),
      search_all-searches rest (add_result p options known (spend progress) (p.find request w))
          (world_after (p.find request w)),
    )

    -- Where each search that is asked for reaches the port once, a round of searches makes exactly
    -- as many as it reports, no more than the ceiling and no more than there are questions, and it
    -- reports no more failed ones than it made.
    pub search_all_spends :
        (requests : List String) (w : W)
        → (calls (search_all p options known requests start w).1
            ≡ calls w + (search_all p options known requests start w).0.searches)
          × ((search_all p options known requests start w).0.searches ≤ options.max_searches)
          × ((search_all p options known requests start w).0.searches ≤ length requests)
          × ((search_all p options known requests start w).0.failed_searches
              ≤ (search_all p options known requests start w).0.searches)
    search_all_spends requests w = ground (arith, search_all-searches requests start w)
