-- ===== src/Lisod/Serve/Callbacks.antt =====
-- The callbacks of lisod.c under the relation.
use liso.Base.{
  leb, false, Grows, Grows-append, count-append, [], ◌∷◌, ℕ, ◌<◌, ◌≡◌, refl, length, arith,
}
use liso.Buffer.{Alloc}
use liso.Conn.{Conn, Ctx}
use liso.Conn.Recv.{
  cn_parse_req, parse_received, received, parse_body, choose_server, count_body, split_body,
  keep_rest,
}
use liso.Pool.{Pool, pl_reset_conn, pl_del_conn, remove_slot}
use liso.Lisod.{
  liso_drop_conn, liso_conn_err, liso_reset_or_close, liso_cgi_inited, restore_rest, await_write,
}
use liso.Lisod.Serve.Relation.{Kept, Dropped, Fate, Kept-trans}

pub reset-Kept : (x : Ctx Pool) → Kept x (pl_reset_conn x)
unfolding pl_reset_conn
reset-Kept x = record {
  conns = refl;
  fd = refl;
  idx = refl;
  min_max_fd = refl;
  closes = Grows-append x.closed_fds _;
}

-- A connection that is dropped is closed behind what its reset closes.
drop_closes :
    (x : Ctx Pool)
    → x.conn.idx < length x.world.conns
    → Grows (x.conn.fd ∷ x.closed_fds) (liso_drop_conn x).1.closed_fds
unfolding liso_drop_conn pl_del_conn
drop_closes x h n =
    let in_array : leb (length x.world.conns) x.conn.idx ≡ false = ground arith in
    let reset = (reset-Kept x).closes n in
    rw in_array (omega (arith, count-append n (pl_reset_conn x).closed_fds (x.conn.fd ∷ []), reset))

drop_effect :
    (x : Ctx Pool)
    → x.conn.idx < length x.world.conns
    → let y = (liso_drop_conn x).1 in
      (y.world.conns ≡ remove_slot x.world.conns x.conn.idx)
      × (y.world.read_set x.conn.fd ≡ false)
      × (y.world.write_set x.conn.fd ≡ false)
      × (y.world.min_max_fd ≡ x.world.min_max_fd)
unfolding liso_drop_conn pl_del_conn pl_reset_conn
drop_effect x h = ground arith

pub drop-Dropped :
    (x : Ctx Pool) → x.conn.idx < length x.world.conns → Dropped x (liso_drop_conn x).1
drop-Dropped x h =
    let (conns, unread, unwritten, min_max_fd) = drop_effect x h in
    record {
      conns = conns;
      unread = unread;
      unwritten = unwritten;
      min_max_fd = min_max_fd;
      closes = drop_closes x h;
    }

pub conn_err-Kept : (x : Ctx Pool) (status : ℕ) → Kept x (liso_conn_err x status).1
unfolding liso_conn_err
conn_err-Kept x status = record {
  conns = refl;
  fd = refl;
  idx = refl;
  min_max_fd = refl;
  closes = λ n. omega arith;
}

pub cgi_inited-Kept : (x : Ctx Pool) → Kept x (liso_cgi_inited x).1
unfolding liso_cgi_inited
cgi_inited-Kept x = record {
  conns = refl;
  fd = refl;
  idx = refl;
  min_max_fd = refl;
  closes = λ n. omega arith;
}

-- Parsing touches neither the descriptor nor the slot.
abbrev SameSlot : Conn → Conn → Type 0
SameSlot c d = (d.fd ≡ c.fd) × (d.idx ≡ c.idx)

parse_received-SameSlot : (c : Conn) (a : Alloc) (last : ℕ) → SameSlot c (parse_received c a last).0
unfolding parse_received received
parse_received-SameSlot c a last = ground arith

parse_body-SameSlot : (c : Conn) → SameSlot c (parse_body c)
unfolding parse_body choose_server count_body split_body keep_rest
parse_body-SameSlot c = ground arith

pub parse_req-Kept :
    (x : Ctx Pool) (a : Alloc) (last : ℕ) → Kept x (cn_parse_req x a last liso_conn_err).1
unfolding cn_parse_req liso_conn_err
parse_req-Kept x a last = ground (
  arith,
  parse_received-SameSlot x.conn a last,
  parse_body-SameSlot x.conn,
  parse_body-SameSlot (parse_received x.conn a last).0,
)

restore-Kept : (x : Ctx Pool) → Kept x (record x { conn = restore_rest x.conn })
unfolding restore_rest
restore-Kept x = record {
  conns = refl;
  fd = refl;
  idx = refl;
  min_max_fd = refl;
  closes = λ n. omega arith;
}

await_write-Kept : (x : Ctx Pool) → Kept x (await_write x)
unfolding await_write
await_write-Kept x = ground arith

pub reset_or_close-Fate :
    (a : Alloc) (x : Ctx Pool)
    → x.conn.idx < length x.world.conns
    → Fate x (liso_reset_or_close a x)
unfolding liso_reset_or_close liso_drop_conn
reset_or_close-Fate a x h = ground (arith, drop-Dropped x h, reset-Kept x, both)
  where
    y : Ctx Pool
    y = record (pl_reset_conn x) { conn = restore_rest (pl_reset_conn x).conn }

    z : Ctx Pool
    z = (cn_parse_req y a 0 liso_conn_err).1

    both : Kept x (await_write z)
    both = Kept-trans (reset-Kept x) (
        Kept-trans (restore-Kept (pl_reset_conn x))
          (Kept-trans (parse_req-Kept y a 0) (await_write-Kept z)))
