-- ===== src/Lisod/Serve/Relation.antt =====
-- How a connection and its pool before a stage relate to those after it.
use liso.Base.{Bool, true, if◌then◌else◌, Grows, ◌∷◌, ◌<◌, length, ◌≡◌, refl, ◌∙◌, false, arith}
use liso.Conn.{Ctx, Ret, alive, closed}
use liso.Pool.{Pool, remove_slot}
use liso.Lisod.Serve.{◌>>=◌}

-- The connection keeps its descriptor and its slot, and the array is as it was. What was closed
-- stays in the list.
pub record Kept (x y : Ctx Pool) : Type 0 where
  pub conns : y.world.conns ≡ x.world.conns
  pub fd : y.conn.fd ≡ x.conn.fd
  pub idx : y.conn.idx ≡ x.conn.idx
  pub min_max_fd : y.world.min_max_fd ≡ x.world.min_max_fd
  pub closes : Grows x.closed_fds y.closed_fds

-- The connection is out of the array, its descriptor is closed, and `select` does not watch it.
pub record Dropped (x y : Ctx Pool) : Type 0 where
  pub conns : y.world.conns ≡ remove_slot x.world.conns x.conn.idx
  pub unread : y.world.read_set x.conn.fd ≡ false
  pub unwritten : y.world.write_set x.conn.fd ≡ false
  pub min_max_fd : y.world.min_max_fd ≡ x.world.min_max_fd
  pub closes : Grows (x.conn.fd ∷ x.closed_fds) y.closed_fds

abbrev pub Fate : Ctx Pool → Ret × Ctx Pool → Type 0
Fate x (alive, y) = Kept x y
Fate x (closed, y) = Dropped x y

pub Kept-refl : (x : Ctx Pool) → Kept x x
Kept-refl x = record {
  conns = refl;
  fd = refl;
  idx = refl;
  min_max_fd = refl;
  closes = λ n. omega arith;
}

pub Kept-trans : {x y z : Ctx Pool} → Kept x y → Kept y z → Kept x z
Kept-trans k l = record {
  conns = l.conns ∙ k.conns;
  fd = l.fd ∙ k.fd;
  idx = l.idx ∙ k.idx;
  min_max_fd = l.min_max_fd ∙ k.min_max_fd;
  closes = λ n. omega (arith, k.closes n, l.closes n);
}

pub if-Kept : {x y z : Ctx Pool} (b : Bool) → Kept x y → Kept x z → Kept x (if b then y else z)
if-Kept true k l = k
if-Kept false k l = l

pub Kept-Fate : {x y : Ctx Pool} → Kept x y → (r : Ret × Ctx Pool) → Fate y r → Fate x r
Kept-Fate k (alive, z) f = Kept-trans k f
Kept-Fate {x} {y} k (closed, z) f = record {
  conns = rw (f.conns, k.conns, k.idx) refl;
  unread = rw k.fd at f.unread;
  unwritten = rw k.fd at f.unwritten;
  min_max_fd = f.min_max_fd ∙ k.min_max_fd;
  closes = λ n. let h = rw k.fd at f.closes n in omega (arith, k.closes n, h);
}

pub >>=-Fate :
    (x : Ctx Pool) (r : Ret × Ctx Pool) (f : Ctx Pool → Ret × Ctx Pool)
    → Fate x r
    → ((y : Ctx Pool) → Kept x y → Fate y (f y))
    → Fate x (r >>= f)
>>=-Fate x (alive, y) f k next = Kept-Fate k (f y) (next y k)
>>=-Fate x (closed, y) f d next = d

-- The connection is in the array.
abbrev pub InArray : Ctx Pool → Type 0
InArray x = x.conn.idx < length x.world.conns

pub Kept-InArray : {x y : Ctx Pool} → Kept x y → InArray x → InArray y
Kept-InArray k h = rw (k.idx, k.conns) h

-- A callback behind a stage that kept the connection.
pub call-Fate :
    (f : Ctx Pool → Ret × Ctx Pool) {x y : Ctx Pool}
    → ((z : Ctx Pool) → InArray z → Fate z (f z))
    → InArray x
    → Kept x y
    → Fate x (f y)
call-Fate f {x} {y} cb h k = Kept-Fate k (f y) (cb y (Kept-InArray k h))
