-- ===== src/Selector/Table/Slots.antt =====
-- The item at an index of the table, and the largest descriptor in use (src/shared/selector.c).
use socks5proxy.Prelude.{
  ℕ, zero, suc, ◌≤◌, ◌<◌, ◌≡◌, refl, Option, none, some, List, [], ◌∷◌, ◌++◌, ltb, ◌==◌,
  if◌then◌else◌, length, get_elem?, set, take, replicate, arith, Bool-cases, inl, inr, ◌⊎◌,
}
use socks5proxy.Selector.{Item}
use socks5proxy.Selector.Table.{max_used}

module _ {A : Type 0} where
  -- `none` also behind the table.
  unfoldable pub item_at : List (Option (Item A)) → ℕ → Option (Item A)
  item_at [] i = none
  item_at (x ∷ xs) zero = x
  item_at (x ∷ xs) (suc i) = item_at xs i

  pub get_elem?-item_at :
      (xs : List (Option (Item A))) (i : ℕ) → i < length xs → get_elem? xs i ≡ some (item_at xs i)
  unfolding item_at
  get_elem?-item_at [] i h = absurd (omega arith)
  get_elem?-item_at (x ∷ xs) zero h = refl
  get_elem?-item_at (x ∷ xs) (suc i) h = get_elem?-item_at xs i (omega arith)

  pub get_elem?-lt :
      (xs : List (Option (Item A))) (i : ℕ) {x : Option (Item A)}
      → get_elem? xs i ≡ some x
      → (i < length xs) × (item_at xs i ≡ x)
  unfolding item_at
  get_elem?-lt [] i h = absurd (ground arith)
  get_elem?-lt (x ∷ xs) zero h = (omega arith, ground arith)
  get_elem?-lt (x ∷ xs) (suc i) h = let (l, e) = get_elem?-lt xs i h in (omega arith, e)

  pub item_at-lt :
      (xs : List (Option (Item A))) (i : ℕ) {x : Item A} → item_at xs i ≡ some x → i < length xs
  unfolding item_at
  item_at-lt [] i h = absurd (ground arith)
  item_at-lt (x ∷ xs) zero h = omega arith
  item_at-lt (x ∷ xs) (suc i) h = let l = item_at-lt xs i h in omega arith

  pub item_at-set :
      (xs : List (Option (Item A))) (j i : ℕ) (x : Option (Item A))
      → j < length xs
      → item_at (set xs j x) i ≡ (if i == j then x else item_at xs i)
  unfolding item_at
  item_at-set [] j i x h = absurd (omega arith)
  item_at-set (y ∷ ys) zero zero x h = refl
  item_at-set (y ∷ ys) zero (suc i) x h = ground arith
  item_at-set (y ∷ ys) (suc j) zero x h = ground arith
  item_at-set (y ∷ ys) (suc j) (suc i) x h = ground (arith, item_at-set ys j i x (omega arith))

  pub item_at-none : (n i : ℕ) → item_at (replicate n none) i ≡ none
  unfolding item_at
  item_at-none zero i = refl
  item_at-none (suc n) zero = refl
  item_at-none (suc n) (suc i) = item_at-none n i

  pub item_at-append :
      (xs : List (Option (Item A))) (n i : ℕ) → item_at (xs ++ replicate n none) i ≡ item_at xs i
  unfolding item_at
  item_at-append [] n i = item_at-none n i
  item_at-append (x ∷ xs) n zero = refl
  item_at-append (x ∷ xs) n (suc i) = item_at-append xs n i

  pub item_at-take :
      (n : ℕ) (xs : List (Option (Item A))) (i : ℕ) → i < n → item_at (take n xs) i ≡ item_at xs i
  unfolding item_at
  item_at-take zero xs i h = absurd (omega arith)
  item_at-take (suc n) [] i h = refl
  item_at-take (suc n) (x ∷ xs) zero h = refl
  item_at-take (suc n) (x ∷ xs) (suc i) h = item_at-take n xs i (omega arith)

  pub item_at-some_of_take :
      (n : ℕ) (xs : List (Option (Item A))) (i : ℕ) {x : Item A}
      → item_at (take n xs) i ≡ some x
      → item_at xs i ≡ some x
  unfolding item_at
  item_at-some_of_take zero xs i h = absurd (ground arith)
  item_at-some_of_take (suc n) [] i h = absurd (ground arith)
  item_at-some_of_take (suc n) (x ∷ xs) zero h = h
  item_at-some_of_take (suc n) (x ∷ xs) (suc i) h = item_at-some_of_take n xs i h

  -- The result is the start or the descriptor of an item.
  abbrev Attained : ℕ → ℕ → List (Option (Item A)) → Type 0
  Attained start max xs =
      (max ≡ start) ⊎ ((i : ℕ) × (x : Item A) × (item_at xs i ≡ some x) × (max ≡ x.fd))

  max_used-le : (start : ℕ) (xs : List (Option (Item A))) → start ≤ max_used start xs
  unfolding max_used
  max_used-le start [] = omega arith
  max_used-le start (none ∷ xs) = max_used-le start xs
  max_used-le start (some x ∷ xs) = elim (Bool-cases (ltb start x.fd)) [
    | inl t ↦ let h = max_used-le x.fd xs in rw t (ground arith)
    | inr f ↦ rw f (max_used-le start xs)
  ]

  pub max_used-upper :
      (xs : List (Option (Item A))) (start i : ℕ) {x : Item A}
      → item_at xs i ≡ some x
      → x.fd ≤ max_used start xs
  unfolding max_used item_at
  max_used-upper [] start i e = absurd (ground arith)
  max_used-upper (none ∷ xs) start zero e = absurd (ground arith)
  max_used-upper (none ∷ xs) start (suc i) e = max_used-upper xs start i e
  max_used-upper (some y ∷ xs) start zero {x} e =
      let q : y ≡ x = ground arith in
      let l = max_used-le (if ltb start y.fd then y.fd else start) xs in
      let m : y.fd ≤ (if ltb start y.fd then y.fd else start) = ground arith in
      rw (← q) (omega (arith, l, m))
  max_used-upper (some y ∷ xs) start (suc i) e =
      max_used-upper xs (if ltb start y.fd then y.fd else start) i e

  pub max_used-Attained :
      (start : ℕ) (xs : List (Option (Item A))) → Attained start (max_used start xs) xs
  unfolding max_used item_at
  max_used-Attained start [] = inl refl
  max_used-Attained start (none ∷ xs) = elim (max_used-Attained start xs) [
    | inl e ↦ inl e
    | inr (i, x, e, q) ↦ inr (suc i, x, e, q)
  ]
  max_used-Attained start (some y ∷ xs) = elim (Bool-cases (ltb start y.fd)) [
    | inl t ↦ rw t (elim (max_used-Attained y.fd xs) [
      | inl e ↦ inr (0, y, refl, e)
      | inr (i, x, e, q) ↦ inr (suc i, x, e, q)
    ])
    | inr f ↦ rw f (elim (max_used-Attained start xs) [
      | inl e ↦ inl e
      | inr (i, x, e, q) ↦ inr (suc i, x, e, q)
    ])
  ]
