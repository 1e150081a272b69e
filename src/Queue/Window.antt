-- ===== src/Queue/Window.antt =====
-- A bounded queue is a window on the sequence of the elements that entered it (src/shared/queue.c).
use socks5proxy.Prelude.{
  ℕ, ◌+◌, ◌-◌, ◌≡◌, refl, sym, ap, true, false, Option, some, List, [], ◌∷◌, ◌++◌, length, drop,
  arith, Bool-cases, inl, inr, ◌≤◌, ◌<◌, length-append, append_assoc, ◌>>=◌, if◌then◌else◌,
  append-nil, ap₂, ◌∙◌, drop_append_left, ◌⊎◌,
}
use socks5proxy.Queue.{Queue, create_queue, dequeue, is_full, enqueue}

-- The counter is the number of nodes, and a bound is kept.
pub record IsValid {A : Type 0} (q : Queue A) : Type 0 where
  pub counted : q.size ≡ length q.nodes
  pub bounded : (q.max_capacity ≡ 0) ⊎ (q.size ≤ q.max_capacity)

nodes-cases : {A : Type 0} (xs : List A) → (xs ≡ []) ⊎ ((y : A) × (ys : List A) × (xs ≡ y ∷ ys))
nodes-cases [] = inl refl
nodes-cases (y ∷ ys) = inr (y, ys, refl)

-- Put the elements of a list in, one after the other.
unfoldable pub enqueue_all : {A : Type 0} → Queue A → List A → Option (List A × Queue A)
enqueue_all q [] = some ([], q)
enqueue_all q (x ∷ xs) = do
  (freed, q') ← enqueue q x true
  (more, q'') ← enqueue_all q' xs
  some (freed ++ more, q'')

-- On a valid queue, and with memory for the node, `enqueue` loses no element and keeps their
-- order: what it freed and what stands in the queue are together what stood there with the new
-- element behind it. It frees one element if the queue was full and none otherwise, and the queue
-- stays valid with the same bound.
pub enqueue-IsValid :
    {A : Type 0} (q : Queue A) (x : A)
    → IsValid q
    → (freed : List A) × (q' : Queue A) × (enqueue q x true ≡ some (freed, q'))
      × IsValid q'
      × (freed ++ q'.nodes ≡ q.nodes ++ (x ∷ []))
      × (length freed ≡ (if is_full q then 1 else 0))
      × (q'.max_capacity ≡ q.max_capacity)
unfolding enqueue is_full dequeue
enqueue-IsValid q x v = elim (Bool-cases (is_full q)) [
  | inl full ↦ elim (nodes-cases (q.nodes)) [
    | inl n ↦ absurd (ground (arith, v.counted))
    | inr (y, ys, n) ↦ (
      y ∷ [],
      record q { nodes = ys ++ (x ∷ []); size = length ys + 1 },
      ground (arith, v.counted),
      record {
        counted = omega (arith, length-append ys (x ∷ []));
        bounded = ground (arith, v.counted);
      },
      ground arith,
      ground arith,
      refl,
    )
  ]
  | inr free ↦ (
    [],
    record q { nodes = q.nodes ++ (x ∷ []); size = q.size + 1 },
    ground arith,
    record {
      counted = omega (arith, v.counted, length-append (q.nodes) (x ∷ []));
      bounded = ground arith;
    },
    refl,
    ground arith,
    refl,
  )
]

is_full-length :
    {A : Type 0} (q : Queue A)
    → IsValid q
    → 0 < q.max_capacity
    → ((is_full q ≡ true) × (length q.nodes ≡ q.max_capacity))
      ⊎ ((is_full q ≡ false) × (length q.nodes < q.max_capacity))
unfolding is_full
is_full-length q v h = elim (Bool-cases (is_full q)) [
  | inl e ↦ inl (e, ground (arith, v.counted, v.bounded))
  | inr e ↦ inr (e, ground (arith, v.counted, v.bounded))
]

regroup :
    {A : Type 0} (f₁ f₂ n₂ n₁ xs n : List A) (x : A)
    → f₁ ++ n₁ ≡ n ++ (x ∷ [])
    → f₂ ++ n₂ ≡ n₁ ++ xs
    → (f₁ ++ f₂) ++ n₂ ≡ n ++ (x ∷ xs)
regroup f₁ f₂ n₂ n₁ xs n x p₁ p₂ =
    append_assoc f₁ f₂ n₂
    ∙ ap (λ z. f₁ ++ z) p₂
    ∙ sym (append_assoc f₁ n₁ xs)
    ∙ ap (λ z. z ++ xs) p₁
    ∙ append_assoc n (x ∷ []) xs

enqueue_all_lem :
    {A : Type 0} (q : Queue A) (xs : List A)
    → IsValid q
    → 0 < q.max_capacity
    → (freed : List A) × (q' : Queue A) × (enqueue_all q xs ≡ some (freed, q'))
      × (freed ++ q'.nodes ≡ q.nodes ++ xs)
      × (length freed ≡ length q.nodes + length xs - q.max_capacity)
unfolding enqueue_all
enqueue_all_lem q [] v h =
    ([], q, refl, sym (append-nil q.nodes), ground (arith, v.counted, v.bounded))
enqueue_all_lem q (x ∷ xs) v h =
    let (f₁, q₁, e₁, v₁, p₁, n₁, m₁) = enqueue-IsValid q x v in
    let (f₂, q₂, e₂, p₂, n₂) = enqueue_all_lem q₁ xs v₁ (ground (arith, m₁)) in
    let l₁ : length (f₁ ++ q₁.nodes) ≡ length (q.nodes ++ (x ∷ [])) = ap length p₁ in
    let l₂ : length f₁ + length q₁.nodes ≡ length q.nodes + 1 =
      omega (arith, l₁, length-append f₁ (q₁.nodes), length-append (q.nodes) (x ∷ [])) in
    (
      f₁ ++ f₂,
      q₂,
      ground (arith, e₁, e₂),
      regroup f₁ f₂ (q₂.nodes) (q₁.nodes) xs (q.nodes) x p₁ p₂,
      elim (is_full-length q v h) [
        | inl (t, w) ↦
            let o : length f₁ ≡ 1 = ground (arith, n₁) in
            omega (arith, length-append f₁ f₂, n₂, l₂, m₁, o, w)
        | inr (t, w) ↦
            let o : length f₁ ≡ 0 = ground (arith, n₁) in
            omega (arith, length-append f₁ f₂, n₂, l₂, m₁, o, w)
      ],
    )

-- With memory for every node, elements that enter an empty queue of capacity `m > 0`, however
-- many, leave the last `m` of them in it, in the order in which they came; the others have been
-- handed to `free_fn`, in that order too.
pub enqueue_all-window :
    {A : Type 0} (m : ℕ) (xs : List A)
    → 0 < m
    → (q₀ q : Queue A) × (freed : List A) × (create_queue m true ≡ some q₀)
      × (enqueue_all q₀ xs ≡ some (freed, q))
      × (q.nodes ≡ drop (length xs - m) xs)
      × (freed ++ q.nodes ≡ xs)
unfolding create_queue
enqueue_all-window {A} m xs h =
    let q₀ : Queue A = record { nodes = []; max_capacity = m; size = 0 } in
    let v : IsValid q₀ = record { counted = refl; bounded = inr (omega arith) } in
    let (freed, q, e, p, n) = enqueue_all_lem q₀ xs v h in
    (
      q₀,
      q,
      freed,
      refl,
      e,
      sym (drop_append_left freed (q.nodes)) ∙ ap₂ drop (n ∙ omega arith) p,
      p,
    )
