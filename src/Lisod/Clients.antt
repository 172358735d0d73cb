-- ===== src/Lisod/Clients.antt =====
-- The server as its clients see it: a bag of open sockets and what was closed, without the order and
-- the slots of the array. The steps are those of lisod.c's loop on the sockets of its clients.
pub mod Rounds
pub mod Turns
pub mod History
use mathlib.Core.Path.{subst}
use mathlib.Core.List.{append-nil, append_assoc}
use liso.Base.{
  sym, ℕ, ◌+◌, ◌≤◌, ◌≡◌, Option, none, some, List, [], ◌∷◌, ◌++◌, arith, count, count-append, Grows,
  Bag, put, occurrences, occurrences-put,
}

-- The sockets of the clients, and the descriptors that were closed so far.
pub record Clients : Type 0 where
  pub open_fds : Bag
  pub gone : List ℕ

-- A step, with the socket that `accept` gave in it, if any.
pub data Step : Option ℕ → Clients → Clients → Type 0 where
  -- A round serves a client.
  serves :
      (b : Bag) (gone gone' : List ℕ)
      → Grows gone gone'
      → Step none (record { open_fds = b; gone = gone }) (record { open_fds = b; gone = gone' })
  -- A round ends with a client whose socket is closed.
  leaves :
      (fd : ℕ) (b : Bag) (gone gone' : List ℕ)
      → Grows (fd ∷ gone) gone'
      → Step none
          (record { open_fds = put fd b; gone = gone })
          (record { open_fds = b; gone = gone' })
  -- An accepted socket becomes a client.
  enters :
      (fd : ℕ) (b : Bag) (gone : List ℕ)
      → Step
          (some fd)
          (record { open_fds = b; gone = gone })
          (record { open_fds = put fd b; gone = gone })
  -- An accepted socket is closed at once.
  is_refused :
      (fd : ℕ) (b : Bag) (gone gone' : List ℕ)
      → Grows (fd ∷ gone) gone'
      → Step
          (some fd)
          (record { open_fds = b; gone = gone })
          (record { open_fds = b; gone = gone' })

abbrev pub offer : Option ℕ → List ℕ
offer none = []
offer (some fd) = fd ∷ []

-- Steps one after the other, with the sockets that `accept` gave in them.
pub data Steps : List ℕ → Clients → Clients → Type 0 where
  no_step : (x : Clients) → Steps [] x x
  then_step :
      {os : List ℕ} {x y z : Clients} (o : Option ℕ)
      → Steps os x y
      → Step o y z
      → Steps (os ++ offer o) x z

pub Steps-trans :
    {os ps : List ℕ} {x y z : Clients} → Steps os x y → Steps ps y z → Steps (os ++ ps) x z
Steps-trans {os} {x = x} r (no_step y) = subst (λ l. Steps l x y) (sym (append-nil os)) r
Steps-trans {os} {x = x} {z = z} r (then_step {os = ps} o q t) =
    subst (λ l. Steps l x z) (append_assoc os ps (offer o)) (then_step o (Steps-trans r q) t)

-- What a step does to a descriptor: it is open or closed behind the step as often as it was before
-- and was accepted, at least, and it is open only as often as that.
Step-conserves :
    (n : ℕ) {o : Option ℕ} {x y : Clients}
    → Step o x y
    → (count n (offer o) + occurrences n x.open_fds + count n x.gone
        ≤ occurrences n y.open_fds + count n y.gone)
      × (occurrences n y.open_fds ≤ count n (offer o) + occurrences n x.open_fds)
Step-conserves n (serves b gone gone' g) = omega (arith, g n)
Step-conserves n (leaves fd b gone gone' g) = omega (arith, g n, occurrences-put n fd b)
Step-conserves n (enters fd b gone) = omega (arith, occurrences-put n fd b)
Step-conserves n (is_refused fd b gone gone' g) = omega (arith, g n)

pub Steps-conserve :
    (n : ℕ) {os : List ℕ} {x y : Clients}
    → Steps os x y
    → (count n os + occurrences n x.open_fds + count n x.gone
        ≤ occurrences n y.open_fds + count n y.gone)
      × (occurrences n y.open_fds ≤ count n os + occurrences n x.open_fds)
Steps-conserve n (no_step x) = omega arith
Steps-conserve n (then_step {os = os} o r t) =
    omega (arith, Steps-conserve n r, Step-conserves n t, count-append n os (offer o))
