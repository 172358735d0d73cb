-- ===== src/Heap/Owns.antt =====
-- What a command on the heap needs and leaves: the rules for the commands of the module Heap.
use liso.Base.{
  ℕ, ◌+◌, ◌<◌, ◌≡◌, ◌∙◌, ap, inl, inr, refl, Option, some, List, [], ◌∷◌, ◌++◌, ◌==◌, arith, count,
  count-append, Bool-cases, SameItems,
}
use liso.Heap.{Heap, Cmd, continue_with, ◌>>=◌, ◌>>◌, pure, free, take_block}

-- The live blocks are `bs` and others, of which there are `r`.
abbrev Holds : List ℕ → (ℕ → ℕ) → Heap → Type 0
Holds bs r h = (n : ℕ) → count n h ≡ count n bs + r n

-- The command succeeds and gives a value that `P` holds of; what it owns becomes `post`, and the
-- other blocks stay.
abbrev pub Outcome :
    {A : Type 0} → Option (A × Heap) → (A → List ℕ) → (A → Type 0) → (ℕ → ℕ) → Type 0
Outcome {A} o post P r = (a : A) × (h' : Heap) × (o ≡ some (a, h')) × Holds (post a) r h' × P a

pub record Does {A : Type 0} (pre : List ℕ) (m : Cmd A) (post : A → List ℕ) (P : A → Type 0)
    : Type 0 where
  pub runs : (r : ℕ → ℕ) (h : Heap) → Holds pre r h → Outcome (m h) post P r

-- The same, where nothing is said of the value.
abbrev pub Any : {A : Type 0} → A → Type 0
Any a = Unit {0}

-- The same for a command with no value.
abbrev pub Turns : List ℕ → Cmd (Unit {0}) → List ℕ → Type 0
Turns pre m post = Does pre m (λ _. post) Any

module _ {A B : Type 0} where
  pub Does-bind :
      {pre : List ℕ} {m : Cmd A} {mid : A → List ℕ} {P : A → Type 0} {k : A → Cmd B}
      {post : B → List ℕ} {Q : B → Type 0}
      → Does pre m mid P
      → ((a : A) → P a → Does (mid a) (k a) post Q)
      → Does pre (m >>= k) post Q
  Does-bind {k = k} d e = record {
    runs = λ r h own.
        let (a, h', ran, own', p) = d.runs r h own in
        let (b, h2, ran', own2, q) = (e a p).runs r h' own' in
        (b, h2, ap (λ o. continue_with k o) ran ∙ ran', own2, q);
  }

module _ {A : Type 0} where
  pub Does-pure :
      {pre : List ℕ} {post : A → List ℕ} {P : A → Type 0} (a : A)
      → SameItems pre (post a)
      → P a
      → Does pre (pure a) post P
  Does-pure a same p = record {
    runs = λ r h own. (a, h, refl, (λ n. own n ∙ ap (λ k. k + r n) (same n)), p);
  }

  -- Other blocks `f` beside those that the command owns, in any order.
  Does-frame :
      (f : List ℕ) {pre pre' : List ℕ} {m : Cmd A} {post post' : A → List ℕ} {P : A → Type 0}
      → Does pre m post P
      → SameItems pre' (pre ++ f)
      → ((a : A) → P a → SameItems (post a ++ f) (post' a))
      → Does pre' m post' P
  Does-frame f {pre} {post = post} d before after = record {
    runs = λ r h own.
        let (a, h', ran, own', p) =
          d.runs (λ n. count n f + r n) h
            (λ n. omega (arith, own n, before n, count-append n pre f)) in
        (a, h', ran, (λ n. omega (arith, own' n, after a p n, count-append n (post a) f)), p);
  }

-- A command that runs beside the blocks `f`, and what comes behind it.
pub Does-step :
    {A B : Type 0} (f : List ℕ) {pre pre' : List ℕ} {m : Cmd A} {mid : A → List ℕ} {P : A → Type 0}
    {k : A → Cmd B} {post : B → List ℕ} {Q : B → Type 0}
    → Does pre m mid P
    → SameItems pre' (pre ++ f)
    → ((a : A) → P a → Does (mid a ++ f) (k a) post Q)
    → Does pre' (m >>= k) post Q
Does-step f {mid = mid} d before e =
    Does-bind (Does-frame f {post' = λ a. mid a ++ f} d before (λ a p n. refl)) e

-- A command that only gives blocks back, and what comes behind it.
pub Turns-then :
    {B : Type 0} {xs ys : List ℕ} {m : Cmd (Unit {0})} {k : Cmd B} {post : B → List ℕ}
    {Q : B → Type 0}
    → Turns xs m []
    → Does ys k post Q
    → Does (xs ++ ys) (m >> k) post Q
Turns-then {ys = ys} d e = Does-step ys d (λ n. refl) (λ u p. e)

-- The blocks that a command owns, in another order.
pub Does-from :
    {A : Type 0} {pre pre' : List ℕ} {m : Cmd A} {post : A → List ℕ} {P : A → Type 0}
    → SameItems pre' pre
    → Does pre m post P
    → Does pre' m post P
Does-from same d = record { runs = λ r h own. d.runs r h (λ n. own n ∙ ap (λ k. k + r n) (same n)) }

pub take_block-Does : (malloc : Heap → ℕ) → Does [] (take_block malloc) (λ a. a ∷ []) Any
unfolding take_block
take_block-Does malloc = record {
  runs = λ r h own. (malloc h, malloc h ∷ h, refl, (λ n. omega (arith, own n)), tt);
}

-- A block that is live can be freed.
free_live :
    (p : ℕ) (h : Heap)
    → 0 < count p h
    → (h' : Heap) × (free p h ≡ some (tt, h')) × ((n : ℕ) → count n h ≡ count n (p ∷ h'))
unfolding free
free_live p [] live = absurd (omega arith)
free_live p (q ∷ h) live = elim (Bool-cases (q == p)) [
  | inl e ↦ (h, rw e refl, λ n. ground arith)
  | inr e ↦
      let (h', ran, same) = free_live p h (ground arith) in
      (q ∷ h', rw (e, ran) refl, λ n. omega (arith, same n))
]

pub free-Turns : (p : ℕ) → Turns (p ∷ []) (free p) []
free-Turns p = record {
  runs = λ r h own.
      let (h', ran, same) = free_live p h (ground (arith, own p)) in
      (tt, h', ran, (λ n. omega (arith, own n, same n)), tt);
}
