-- ===== src/Editorial/Corroboration/Publishers.antt =====
-- Whose word a corroboration of `src/editorial/corroboration/evidence-corroboration.service.ts` adds.
use telegram_news_agent.Prelude.{
  ◌≡◌, refl, String, true, false, Option, none, some, List, [], ◌∷◌, ◌++◌, arith, All, eq_iff,
}
use telegram_news_agent.Editorial.Corroboration.{
  Evidence, Details, CorroborationOutcome, not_needed, corroborated, uncorroborated, Progress,
  Ports, Options, keys, has, some_values, publisher_of, known_publishers, conclude, corroborate,
}
use telegram_news_agent.Editorial.Corroboration.Independence.{
  is_distinct, is_disjoint, is_subset, IsIndependent, search_all-IsIndependent,
}

-- A publisher, where there is one, is none of the listed ones.
abbrev pub IsUnlisted : List String → Option String → Type 0
IsUnlisted publishers none = Unit
IsUnlisted publishers (some k) = has k publishers ≡ false

is_disjoint-head :
    (xs ys : List String) (k : String)
    → is_disjoint xs (k ∷ ys) ≡ true
    → (has k xs ≡ false) × (is_disjoint xs ys ≡ true)
unfolding is_disjoint
is_disjoint-head [] ys k h = (refl, refl)
is_disjoint-head (x ∷ xs) ys k h = ground (arith, is_disjoint-head xs ys k, eq_iff x k, eq_iff k x)

module _ {W : Type 0} (p : Ports W) (options : Options) where
  -- What the details of a corroboration say of publishers, given the evidence at hand.
  abbrev pub AddsPublishers : List Evidence → Details → Type 0
  AddsPublishers evidence details =
      All (λ item. IsUnlisted details.publishers (publisher_of p options item.url)) evidence
      × (is_distinct details.publishers ≡ true)
      × (is_distinct details.strong_publishers ≡ true)
      × (is_subset details.strong_publishers details.publishers ≡ true)

  abbrev pub IsIndependentOf : List Evidence → CorroborationOutcome → Type 0
  IsIndependentOf evidence (not_needed _) = Unit
  IsIndependentOf evidence (corroborated details) = AddsPublishers evidence details
  IsIndependentOf evidence (uncorroborated details _) = AddsPublishers evidence details

  IsUnlisted-head :
      (publishers : List String) (publisher : Option String) (rest : List String)
      → is_disjoint publishers (some_values (publisher ∷ []) ++ rest) ≡ true
      → IsUnlisted publishers publisher × (is_disjoint publishers rest ≡ true)
  IsUnlisted-head publishers none rest h = (tt, h)
  IsUnlisted-head publishers (some k) rest h = is_disjoint-head publishers rest k h

  All-IsUnlisted :
      (publishers : List String) (evidence : List Evidence)
      → is_disjoint publishers (known_publishers p options evidence) ≡ true
      → All (λ item. IsUnlisted publishers (publisher_of p options item.url)) evidence
  unfolding known_publishers
  All-IsUnlisted publishers [] h = tt
  All-IsUnlisted publishers (item ∷ rest) h =
      let (first, later) =
        IsUnlisted-head publishers (publisher_of p options item.url)
          (known_publishers p options rest) h in
      (first, All-IsUnlisted publishers rest later)

  conclude-IsIndependent :
      (evidence : List Evidence) (progress : Progress)
      → IsIndependent (known_publishers p options evidence) progress
      → IsIndependentOf evidence (conclude p options evidence progress)
  unfolding conclude
  conclude-IsIndependent evidence progress h =
      ground (arith, All-IsUnlisted (keys progress.found) evidence h.apart, h)

  -- However the searches answer or fail, and whether the story is corroborated by them or not: no
  -- item of the evidence at hand has its publisher among those that the outcome reports as found;
  -- these are different ones, and the strong ones, whose number decides, are among them, each
  -- counted once.
  pub corroborate-IsIndependent :
      (evidence : List Evidence) (requests : List String) (w : W)
      → IsIndependentOf evidence (corroborate p options evidence requests w).0
  unfolding corroborate
  corroborate-IsIndependent evidence [] w = tt
  corroborate-IsIndependent evidence (request ∷ rest) w =
      conclude-IsIndependent evidence _ (
        search_all-IsIndependent p options (known_publishers p options evidence) (request ∷ rest) w)
