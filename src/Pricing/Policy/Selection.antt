-- ===== src/Pricing/Policy/Selection.antt =====
-- The model that a name is priced as has the longest matching alias.
use cuda_fractal_engine_stat.Prelude.{
  ℕ, ◌≤◌, true, ◌≡◌, refl, sym, ◌∙◌, inl, inr, List, [], ◌∷◌, String, str_eq, eq_iff, arith, ◌==◌,
  Bool-cases, ap, ==_of_eq, eq_of_test,
}
use Prim.Native.String.{count}
use mathlib.Core.List.{Memᴰ}
use mathlib.Core.List.Memᴰ
use cuda_fractal_engine_stat.Pricing.Policy.{
  ModelPricing, PricingPolicy, ok, alias_matches, Matches, alias_match_list, matches, longest,
  owners, all_named, last_of, single_owner, model,
}

-- A model of the policy with an alias that the name matches, and the length of that alias.
pub data MatchedBy (name : String) (models : List ModelPricing) : ℕ → ModelPricing → Type 0 where
  by_alias :
      (m : ModelPricing) (alias : String) (n : ℕ)
      → Memᴰ m models
      → Memᴰ alias m.aliases
      → alias_matches name alias ≡ true
      → n ≡ count alias
      → MatchedBy name models n m

module _ (name : String) (m : ModelPricing) where
  alias_match_complete :
      (aliases : List String) (alias : String)
      → Memᴰ alias aliases
      → alias_matches name alias ≡ true
      → Memᴰ (count alias, m) (alias_match_list name m aliases)
  unfolding alias_match_list
  alias_match_complete [] alias h k = absurd (Memᴰ.not-nil h)
  alias_match_complete (a ∷ rest) alias (Memᴰ.head e) k = rw (← e, k) (Memᴰ.head refl)
  alias_match_complete (a ∷ rest) alias (Memᴰ.tail h) k =
      let ih = alias_match_complete rest alias h k in
      elim (Bool-cases (alias_matches name a)) [
        | inl yes' ↦ rw yes' (Memᴰ.tail ih)
        | inr no' ↦ rw no' ih
      ]

  alias_match_sound :
      (aliases : List String) (n : ℕ) (m' : ModelPricing)
      → Memᴰ (n, m') (alias_match_list name m aliases)
      → (alias : String) × Memᴰ alias aliases
        × (alias_matches name alias ≡ true)
        × (n ≡ count alias)
        × (m' ≡ m)
  unfolding alias_match_list
  alias_match_sound [] n m' h = absurd (Memᴰ.not-nil h)
  alias_match_sound (a ∷ rest) n m' h = elim (Bool-cases (alias_matches name a)) [
    | inl matched ↦ elim (Memᴰ.cases_cons (rw matched at h)) [
      | inl e ↦ (a, Memᴰ.head refl, matched, ap (λ t. t.0) e, ap (λ t. t.1) e)
      | inr later ↦
          let (alias, mem, k, e, e') = alias_match_sound rest n m' later in
          (alias, Memᴰ.tail mem, k, e, e')
    ]
    | inr differs ↦
        let (alias, mem, k, e, e') = alias_match_sound rest n m' (rw differs at h) in
        (alias, Memᴰ.tail mem, k, e, e')
  ]

matches_complete :
    (name : String) (models : List ModelPricing) (n : ℕ) (m : ModelPricing)
    → MatchedBy name models n m
    → Memᴰ (n, m) (matches name models)
unfolding matches
matches_complete name [] n m (by_alias _ alias _ h _ _ _) = absurd (Memᴰ.not-nil h)
matches_complete name (x ∷ rest) n m (by_alias _ alias _ (Memᴰ.head e) h k c) =
    Memᴰ.append_left (matches name rest)
      (rw (c, ← e) (alias_match_complete name m m.aliases alias h k))
matches_complete name (x ∷ rest) n m (by_alias _ alias _ (Memᴰ.tail later) h k c) =
    Memᴰ.append_right (alias_match_list name x x.aliases)
      (matches_complete name rest n m (by_alias m alias n later h k c))

MatchedBy-later :
    (name : String) (x : ModelPricing) (rest : List ModelPricing) (n : ℕ) (m : ModelPricing)
    → MatchedBy name rest n m
    → MatchedBy name (x ∷ rest) n m
MatchedBy-later name x rest n m (by_alias _ alias _ h a k c) =
    by_alias m alias n (Memᴰ.tail h) a k c

matches_sound :
    (name : String) (models : List ModelPricing) (n : ℕ) (m : ModelPricing)
    → Memᴰ (n, m) (matches name models)
    → MatchedBy name models n m
unfolding matches
matches_sound name [] n m h = absurd (Memᴰ.not-nil h)
matches_sound name (x ∷ rest) n m h =
    elim (Memᴰ.append_cases (alias_match_list name x x.aliases) h) [
      | inl here ↦
          let (alias, mem, k, c, e) = alias_match_sound name x x.aliases n m here in
          by_alias m alias n (Memᴰ.head e) (rw e mem) k c
      | inr later ↦ MatchedBy-later name x rest n m (matches_sound name rest n m later)
    ]

longest_bound : (found : Matches) (n : ℕ) (m : ModelPricing) → Memᴰ (n, m) found → n ≤ longest found
unfolding longest
longest_bound [] n m h = absurd (Memᴰ.not-nil h)
longest_bound ((k, x) ∷ rest) n m (Memᴰ.head e) = let first = ap (λ t. t.0) e in omega arith
longest_bound ((k, x) ∷ rest) n m (Memᴰ.tail h) = omega (arith, longest_bound rest n m h)

owners_complete :
    (found : Matches) (n : ℕ) (m : ModelPricing) → Memᴰ (n, m) found → Memᴰ m (owners n found)
unfolding owners
owners_complete [] n m h = absurd (Memᴰ.not-nil h)
owners_complete ((k, x) ∷ rest) n m (Memᴰ.head e) =
    let same = ap (λ t. t.0) e in rw (==_of_eq k n (sym same)) (Memᴰ.head (ap (λ t. t.1) e))
owners_complete ((k, x) ∷ rest) n m (Memᴰ.tail h) =
    let ih = owners_complete rest n m h in
    elim (Bool-cases (k == n)) [ inl same ↦ rw same (Memᴰ.tail ih) | inr differs ↦ rw differs ih ]

owners_sound :
    (found : Matches) (n : ℕ) (m : ModelPricing) → Memᴰ m (owners n found) → Memᴰ (n, m) found
unfolding owners
owners_sound [] n m h = absurd (Memᴰ.not-nil h)
owners_sound ((k, x) ∷ rest) n m h = elim (Bool-cases (k == n)) [
  | inl same ↦ elim (Memᴰ.cases_cons (rw same at h)) [
    | inl e ↦ Memᴰ.head (cc (e, eq_of_test k n same))
    | inr later ↦ Memᴰ.tail (owners_sound rest n m later)
  ]
  | inr differs ↦ Memᴰ.tail (owners_sound rest n m (rw differs at h))
]

last_of_mem : (m : ModelPricing) (rest : List ModelPricing) → Memᴰ (last_of m rest) (m ∷ rest)
unfolding last_of
last_of_mem m [] = Memᴰ.head refl
last_of_mem m (x ∷ rest) = Memᴰ.tail (last_of_mem x rest)

all_named_mem :
    (name : String) (l : List ModelPricing) (m : ModelPricing)
    → all_named name l ≡ true
    → Memᴰ m l
    → m.pricing_model ≡ name
unfolding all_named
all_named_mem name [] m h mem = absurd (Memᴰ.not-nil mem)
all_named_mem name (x ∷ rest) m h (Memᴰ.head e) =
    rw e ((eq_iff x.pricing_model name).0 (ground arith))
all_named_mem name (x ∷ rest) m h (Memᴰ.tail later) = all_named_mem name rest m (ground arith) later

last_eq :
    (x : ModelPricing) (rest : List ModelPricing) (m : ModelPricing)
    → all_named x.pricing_model rest ≡ true
    → single_owner (x ∷ rest) ≡ ok m
    → last_of x rest ≡ m
unfolding single_owner
last_eq x rest m same h = cc (rw same at h)

owner_name :
    (x : ModelPricing) (rest : List ModelPricing) (m : ModelPricing)
    → all_named x.pricing_model rest ≡ true
    → Memᴰ m (x ∷ rest)
    → m.pricing_model ≡ x.pricing_model
owner_name x rest m same (Memᴰ.head e) = ap (λ y. y.pricing_model) e
owner_name x rest m same (Memᴰ.tail later) = all_named_mem x.pricing_model rest m same later

-- What the single owner of a list of models is.
single_owner_sound :
    (l : List ModelPricing) (m : ModelPricing)
    → single_owner l ≡ ok m
    → Memᴰ m l × ((m' : ModelPricing) → Memᴰ m' l → m'.pricing_model ≡ m.pricing_model)
unfolding single_owner
single_owner_sound [] m h = absurd (cc h)
single_owner_sound (x ∷ rest) m h = elim (Bool-cases (all_named x.pricing_model rest)) [
  | inl same ↦
      let e : last_of x rest ≡ m = last_eq x rest m same h in
      let mem : Memᴰ m (x ∷ rest) = rw (← e) (last_of_mem x rest) in
      (mem, λ m' mem'. owner_name x rest m' same mem' ∙ sym (owner_name x rest m same mem))
  | inr differs ↦ absurd (ground arith)
]

selected :
    (policy : PricingPolicy) (name : String) (m : ModelPricing)
    → model policy name ≡ ok m
    → let found = matches name policy.models in single_owner (owners (longest found) found) ≡ ok m
unfolding model
selected policy name m h = elim (Bool-cases (str_eq name "")) [
  | inl empty ↦ absurd (cc (rw empty at h))
  | inr named ↦ rw named at h
]

-- The model that a name is priced as, where there is one, matches it with an alias that no matching
-- alias of the policy is longer than, and every model that matches with an alias as long carries the
-- same name.
pub model-longest :
    (policy : PricingPolicy) (name : String) (m : ModelPricing)
    → model policy name ≡ ok m
    → (n : ℕ) × MatchedBy name policy.models n m
      × ((k : ℕ) (m' : ModelPricing)
          → MatchedBy name policy.models k m'
          → (k ≤ n) × (k ≡ n → m'.pricing_model ≡ m.pricing_model))
unfolding model
model-longest policy name m h =
    let found = matches name policy.models in
    let n = longest found in
    let (mem, same) = single_owner_sound (owners n found) m (selected policy name m h) in
    (
      n,
      matches_sound name policy.models n m (owners_sound found n m mem),
      λ k m' matched.
          let listed = matches_complete name policy.models k m' matched in
          (
            longest_bound found k m' listed,
            λ e. same m' (owners_complete found n m' (rw (← e) listed)),
          ),
    )
