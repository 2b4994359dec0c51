-- ===== src/FeatureFlags/Cached.antt =====
-- What the cache of core.py may be used for: the flags answer as if the file were read at every look.
use mathlib.Core.Path.{sym, subst}
use investment_intelligence.Prelude.{
  ℕ, ◌≡◌, refl, ap, ◌∙◌, All, Bool, true, false, Bool-cases, Option-cases, inl, inr, Option, none,
  some, List, [], ◌∷◌, String, if◌then◌else◌,
}
use investment_intelligence.Prelude.Keys.{ℕ-keys, String-keys}
use investment_intelligence.Prelude.Dict.{Dict, lookup}
use investment_intelligence.Prelude.Outcome.{Result, ok, err}
use investment_intelligence.FeatureFlags.{
  FlagSpec, Cache, Text, bad_yaml, unreadable, not_a_mapping, mapping, File, absent, stat_fails, at,
  ReadError, read_failed, State, is_key, is_cached, by_name, load, read_yaml, value_in, resolve,
  as_bool, flag,
}

abbrev Values : Type 0 → Type 0
Values V = Dict String (Option V)

module _ {K V : Type 0} (str : K → String) where
  -- The values of a text, if it has any.
  abbrev parse : Text K V → Option (Values V)
  parse bad_yaml = none
  parse unreadable = none
  parse not_a_mapping = some []
  parse (mapping items) = some (by_name str items [])

  -- A look at the file without a cache. What was read last is used only where the file is bad.
  abbrev pub look : File K V → Values V → Result ReadError (Values V) × Values V
  look absent last = (ok [], last)
  look stat_fails last = (ok last, last)
  look (at m bad_yaml) last = (ok last, last)
  look (at m unreadable) last = (err read_failed, last)
  look (at m not_a_mapping) last = (ok [], [])
  look (at m (mapping items)) last = let values = by_name str items [] in (ok values, values)

  -- The text of the file at each time of modification.
  module _ (text_at : ℕ → Text K V) where
    abbrev pub IsText : File K V → Type 0
    IsText absent = Unit
    IsText stat_fails = Unit
    IsText (at m t) = t ≡ text_at m

    record IsFresh (c : Cache V) (last : Values V) : Type 0 where
      same : c.values ≡ last
      source : (m : ℕ) → is_cached c.mtime m ≡ true → parse (text_at m) ≡ some c.values

    -- A look through the cache and one without it.
    Agrees : Result ReadError (Values V) × Cache V → Result ReadError (Values V) × Values V → Type 0
    Agrees (answer, c) (answer', last) = (answer ≡ answer') × IsFresh c last

    new_cache :
        (m : ℕ) (values : Values V)
        → parse (text_at m) ≡ some values
        → IsFresh (record { mtime = some m; values = values }) values
    new_cache m values e = record {
      same = refl;
      source = λ m' h. subst (λ x. parse (text_at x) ≡ some values) ((ℕ-keys.beq_iff m m').0 h) e;
    }

    absent-Agrees :
        {c : Cache V} {last : Values V} → IsFresh c last → Agrees (ok [], c) (ok [], last)
    unfolding Agrees
    absent-Agrees h = (refl, h)

    kept-Agrees :
        {c : Cache V} {last : Values V} → IsFresh c last → Agrees (ok c.values, c) (ok last, last)
    unfolding Agrees
    kept-Agrees h = (ap ok h.same, h)

    hit-Agrees :
        {c : Cache V} {last : Values V} (values : Values V)
        → some values ≡ some c.values
        → IsFresh c last
        → Agrees (ok c.values, c) (ok values, values)
    unfolding Agrees
    hit-Agrees {c} values e h =
        let now : values ≡ c.values = cc in
        (ap ok (sym now), record { same = sym now; source = h.source })

    -- A hit has the values that the text gives.
    cached-Agrees :
        (m : ℕ) (t : Text K V) (c : Cache V) (last : Values V)
        → t ≡ text_at m
        → is_cached c.mtime m ≡ true
        → IsFresh c last
        → Agrees (ok c.values, c) (look (at m t) last)
    unfolding Agrees
    cached-Agrees m bad_yaml c last e hit h = kept-Agrees h
    cached-Agrees m unreadable c last e hit h =
        let gone = ap parse e ∙ h.source m hit in absurd (cc)
    cached-Agrees m not_a_mapping c last e hit h = hit-Agrees [] (ap parse e ∙ h.source m hit) h
    cached-Agrees m (mapping items) c last e hit h =
        hit-Agrees (by_name str items []) (ap parse e ∙ h.source m hit) h

    read_text-Agrees :
        (m : ℕ) (t : Text K V) (c : Cache V) (last : Values V)
        → t ≡ text_at m
        → IsFresh c last
        → Agrees (load str m t c) (look (at m t) last)
    unfolding Agrees
    read_text-Agrees m bad_yaml c last e h = (ap ok h.same, h)
    read_text-Agrees m unreadable c last e h = (refl, h)
    read_text-Agrees m not_a_mapping c last e h = (refl, new_cache m [] (ap parse (sym e)))
    read_text-Agrees m (mapping items) c last e h =
        (refl, new_cache m (by_name str items []) (ap parse (sym e)))

    read_yaml-Agrees :
        (f : File K V) (c : Cache V) (last : Values V)
        → IsText f
        → IsFresh c last
        → Agrees (read_yaml str f c) (look f last)
    unfolding read_yaml
    read_yaml-Agrees absent c last e h = absent-Agrees h
    read_yaml-Agrees stat_fails c last e h = kept-Agrees h
    read_yaml-Agrees (at m t) c last e h = elim (Bool-cases (is_cached c.mtime m)) [
      | inl hit ↦ rw hit (cached-Agrees m t c last e hit h)
      | inr miss ↦ rw miss (read_text-Agrees m t c last e h)
    ]

    module _ (truthy : V → Bool) where
      -- One question, without a cache. The file is looked at for a flag that is registered and that no
      -- test has set.
      abbrev pub ask_file :
          String
          → File K V
          → Dict String (FlagSpec V)
          → Dict String (Option V)
          → Values V
          → Result ReadError Bool × Values V
      ask_file name f registry overrides last =
          if is_key name registry
          then elim (lookup name overrides) [
            | some v ↦ (as_bool str truthy (ok v), last)
            | none ↦
                let (values, last') = look f last in
                (as_bool str truthy (value_in str name registry values), last')
          ]
          else (ok false, last)

      abbrev pub answers : List (String × File K V) → State V → List (Result ReadError Bool)
      answers [] s = []
      answers ((name, f) ∷ uses) s = let (a, s') = flag str truthy name f s in a ∷ answers uses s'

      abbrev pub from_file :
          List (String × File K V)
          → Dict String (FlagSpec V)
          → Dict String (Option V)
          → Values V
          → List (Result ReadError Bool)
      from_file [] registry overrides last = []
      from_file ((name, f) ∷ uses) registry overrides last =
          let (a, last') = ask_file name f registry overrides last in
          a ∷ from_file uses registry overrides last'

      Alike : State V → Result ReadError Bool × State V → Result ReadError Bool × Values V → Type 0
      Alike s (a, s') (a', last) =
          (a ≡ a')
          × (s'.registry ≡ s.registry)
          × (s'.overrides ≡ s.overrides)
          × IsFresh s'.cache last

      read-Alike :
          (name : String) (s : State V) (got : Result ReadError (Values V) × Cache V)
          (want : Result ReadError (Values V) × Values V)
          → Agrees got want
          → Alike s
              (as_bool str truthy (value_in str name s.registry got.0), record s { cache = got.1 })
              (as_bool str truthy (value_in str name s.registry want.0), want.1)
      unfolding Alike Agrees
      read-Alike name s (x, c) (y, last) (same, h) =
          (ap (λ v. as_bool str truthy (value_in str name s.registry v)) same, refl, refl, h)

      next-Alike :
          (uses : List (String × File K V)) (s : State V) (got : Result ReadError Bool × State V)
          (want : Result ReadError Bool × Values V)
          → Alike s got want
          → ((s' : State V) (last' : Values V)
              → IsFresh s'.cache last'
              → answers uses s' ≡ from_file uses s'.registry s'.overrides last')
          → got.0 ∷ answers uses got.1 ≡ want.0 ∷ from_file uses s.registry s.overrides want.1
      unfolding Alike
      next-Alike uses s (a, s') (a', last') (same, reg, over, h) rest =
          rw (same, ← reg, ← over) (ap (λ xs. a' ∷ xs) (rest s' last' h))

      flag-Alike :
          (name : String) (f : File K V) (s : State V) (last : Values V)
          → IsText f
          → IsFresh s.cache last
          → Alike s (flag str truthy name f s) (ask_file name f s.registry s.overrides last)
      unfolding flag resolve Alike
      flag-Alike name f s last e h = elim (Bool-cases (is_key name s.registry)) [
        | inr unknown ↦ rw unknown (refl, refl, refl, h)
        | inl known ↦ elim (Option-cases (lookup name s.overrides)) [
          | inr (v, set) ↦ rw (known, resolve, set) (refl, refl, refl, h)
          | inl unset ↦
              rw (known, resolve, unset)
                (read-Alike name s (read_yaml str f s.cache) (look f last)
                  (read_yaml-Agrees f s.cache last e h))
        ]
      ]

      fresh_answers :
          (uses : List (String × File K V)) (s : State V) (last : Values V)
          → All (λ u. IsText u.1) uses
          → IsFresh s.cache last
          → answers uses s ≡ from_file uses s.registry s.overrides last
      fresh_answers [] s last texts h = refl
      fresh_answers ((name, f) ∷ uses) s last texts h =
          next-Alike uses s (flag str truthy name f s) (ask_file name f s.registry s.overrides last)
            (flag-Alike name f s last texts.0 h)
            (λ s' last' h'. fresh_answers uses s' last' texts.1 h')

      -- Where the modification time of the file tells its text: whatever flags are asked for from the
      -- start, with the file in any state at each question, good, bad or missing, every answer is as if
      -- the file were read each time, and where that raises, so does the question. A flag that is not
      -- registered is off.
      pub answers-from_file :
          (uses : List (String × File K V)) (s : State V)
          → All (λ u. IsText u.1) uses
          → answers uses (record s { cache = record { mtime = none; values = [] } })
            ≡ from_file uses s.registry s.overrides []
      answers-from_file uses s texts =
          fresh_answers uses (record s { cache = record { mtime = none; values = [] } }) [] texts
            (record { same = refl; source = λ m h. absurd (cc) })
