-- ===== src/Monitor/Instances/Costs.antt =====
-- How many instances run at the provider: the limit of orchestrator/statemachine.go and the
-- goroutines of orchestrator/scaler.go.
use serverless_gpu_linode.Common.Assoc.{lookup}
use serverless_gpu_linode.Common.{
  ℕ, ◌+◌, ◌≤◌, ◌≡◌, ◌∙◌, refl, Bool, true, false, ◌||◌, List, [], ◌∷◌, ◌++◌, none, some, length,
  arith, any, All, count_if, length-append, ◌==◌, if◌then◌else◌,
}
use serverless_gpu_linode.StateMachine.{Node, NodeManager, get_node}
use serverless_gpu_linode.Monitor.{
  Goroutine, created, starts, drained, destroyed, answered, discards, clears, cleared,
}
use serverless_gpu_linode.Monitor.Instances.{is_tracked, holds}

-- No number stands twice.
abbrev pub AreDistinct : List ℕ → Type 0
AreDistinct [] = Unit
AreDistinct (i ∷ is) = (any (λ k. k == i) is ≡ false) × AreDistinct is

-- The list without the first occurrence of a number.
without : ℕ → List ℕ → List ℕ
without i [] = []
without i (k ∷ ks) = let rest = without i ks in if k == i then ks else k ∷ rest

length-without :
    (i : ℕ) (ks : List ℕ) → any (λ k. k == i) ks ≡ true → length (without i ks) + 1 ≡ length ks
unfolding without any
length-without i [] h = absurd (cc)
length-without i (k ∷ ks) h = ground (arith, length-without i ks)

any-without :
    (i j : ℕ) (ks : List ℕ)
    → (j == i) ≡ false
    → any (λ k. k == j) ks ≡ true
    → any (λ k. k == j) (without i ks) ≡ true
unfolding without any
any-without i j [] other h = absurd (cc)
any-without i j (k ∷ ks) other h = ground (arith, any-without i j ks other)

All-without :
    (i : ℕ) (is ks : List ℕ)
    → any (λ k. k == i) is ≡ false
    → All (λ j. any (λ k. k == j) ks ≡ true) is
    → All (λ j. any (λ k. k == j) (without i ks) ≡ true) is
unfolding any
All-without i [] ks h a = tt
All-without i (j ∷ is) ks h a =
    (any-without i j ks (ground arith) a.0, All-without i is ks (ground arith) a.1)

-- Distinct numbers of a list are at most as many as the list is long.
distinct_le :
    (is ks : List ℕ)
    → AreDistinct is
    → All (λ j. any (λ k. k == j) ks ≡ true) is
    → length is ≤ length ks
distinct_le [] ks d a = omega arith
distinct_le (i ∷ is) ks d a =
    let fewer = distinct_le is (without i ks) d.1 (All-without i is ks d.0 a.1) in
    omega (arith, fewer, length-without i ks a.0)

-- The IDs of the instances that goroutines hold.
abbrev held : List Goroutine → List ℕ
held [] = []
held (created c ∷ gs) = c.id ∷ held gs
held (discards id ∷ gs) = id ∷ held gs
held (clears id ∷ gs) = id ∷ held gs
held (cleared id ∷ gs) = held gs
held (starts t ∷ gs) = held gs
held (drained id active ∷ gs) = held gs
held (destroyed id active ∷ gs) = held gs
held (answered id born r ∷ gs) = held gs

-- The goroutine holds an instance.
abbrev pub is_holding : Goroutine → Bool
is_holding (created c) = true
is_holding (discards id) = true
is_holding (clears id) = true
is_holding _ = false

length-held : (gs : List Goroutine) → length (held gs) ≡ count_if is_holding gs
unfolding count_if
length-held [] = refl
length-held (created c ∷ gs) = omega (arith, length-held gs)
length-held (discards id ∷ gs) = omega (arith, length-held gs)
length-held (clears id ∷ gs) = omega (arith, length-held gs)
length-held (cleared id ∷ gs) = length-held gs
length-held (starts t ∷ gs) = length-held gs
length-held (drained id active ∷ gs) = length-held gs
length-held (destroyed id active ∷ gs) = length-held gs
length-held (answered id born r ∷ gs) = length-held gs

any-held : (j : ℕ) (gs : List Goroutine) → any (λ k. k == j) (held gs) ≡ any (holds j) gs
unfolding any
any-held j [] = refl
any-held j (created c ∷ gs) = ground (arith, any-held j gs)
any-held j (discards id ∷ gs) = ground (arith, any-held j gs)
any-held j (clears id ∷ gs) = ground (arith, any-held j gs)
any-held j (cleared id ∷ gs) = any-held j gs
any-held j (starts t ∷ gs) = any-held j gs
any-held j (drained id active ∷ gs) = any-held j gs
any-held j (destroyed id active ∷ gs) = any-held j gs
any-held j (answered id born r ∷ gs) = any-held j gs

keys : List (ℕ × Node) → List ℕ
keys [] = []
keys ((k, n) ∷ m) = k ∷ keys m

length-keys : (m : List (ℕ × Node)) → length (keys m) ≡ length m
unfolding keys
length-keys [] = refl
length-keys ((k, n) ∷ m) = omega (arith, length-keys m)

any-keys :
    (j : ℕ) (m : List (ℕ × Node))
    → any (λ k. k == j) (keys m) ≡ (elim (lookup j m) [ none ↦ false | some n ↦ true ])
unfolding any keys lookup
any-keys j [] = refl
any-keys j ((k, n) ∷ m) = ground (arith, any-keys j m)

any-append :
    (j : ℕ) (ks ls : List ℕ)
    → any (λ k. k == j) (ks ++ ls) ≡ (any (λ k. k == j) ks || any (λ k. k == j) ls)
unfolding any
any-append j [] ls = refl
any-append j (k ∷ ks) ls = ground (arith, any-append j ks ls)

-- What is known is a key or held.
known-any :
    (nm : NodeManager) (gs : List Goroutine) (j : ℕ)
    → (is_tracked nm j || any (holds j) gs) ≡ true
    → any (λ k. k == j) (keys nm.nodes ++ held gs) ≡ true
unfolding is_tracked get_node
known-any nm gs j h =
    any-append j (keys nm.nodes) (held gs) ∙ ground (arith, any-keys j nm.nodes, any-held j gs)

-- So distinct known instances are no more than the nodes and the goroutines that hold one.
pub known_le :
    (nm : NodeManager) (gs : List Goroutine) (is : List ℕ)
    → AreDistinct is
    → All (λ j. (is_tracked nm j || any (holds j) gs) ≡ true) is
    → length is ≤ length nm.nodes + count_if is_holding gs
known_le nm gs is d a =
    let among = distinct_le is (keys nm.nodes ++ held gs) d (all is a) in
    let total = length-append (keys nm.nodes) (held gs) in
    omega (arith, among, total, length-keys nm.nodes, length-held gs)
  where
    all :
        (is : List ℕ)
        → All (λ j. (is_tracked nm j || any (holds j) gs) ≡ true) is
        → All (λ j. any (λ k. k == j) (keys nm.nodes ++ held gs) ≡ true) is
    all [] a = tt
    all (j ∷ is) a = (known-any nm gs j a.0, all is a.1)
