-- ===== src/Lisod/Serve/Safe/Relay.antt =====
-- The input and the output of a CGI program on the invariant of Conn/Safe.
use liso.Base.{
  ℕ, ◌≤◌, ◌≡◌, refl, ◌⊎◌, inl, inr, ◌++◌, true, arith, length, Bool-cases, Option, none, some, ◌&&◌,
  not, List, if◌then◌else◌,
}
use liso.Buffer.{bufsz, buf_reset, buf_rsize}
use liso.Buffer.Laws.{length-write_at}
use liso.Request.{req_done, phase_code, in_phase, is_static}
use liso.Cgi.{cgi_at, cgi_srv_to_cgi, cgi_cgi_to_srv, cgi_done, is_sending}
use liso.Conn.{nonpositive, Ctx}
use liso.Conn.Safe.{Safe, done-Content, abort-Content, reset-Content}
use liso.Conn.Dynamic.{cn_stream_to_cgi, cn_stream_from_cgi, set_cgi, write_all}
use liso.Pool.{Pool}
use liso.Lisod.{liso_conn_err}
use liso.Lisod.Serve.{Io, turn_cgi, feed_cgi, after_read, read_cgi, pipe_ready}
use liso.Lisod.Serve.Safe.{conn_err-Safe, conn_err-code}
use liso.Lisod.Serve.Safe.Std.{StdIo, Keeps}

-- Behind the writing of the buffer to the program.
record Written (x y : Ctx Pool) : Type 0 where
  safe : Safe y.conn
  next :
      (phase_code y.conn.req.phase ≡ 5)
      ⊎ ((y.conn.buf.data_p ≡ 0) × (y.conn.cgi ≡ x.conn.cgi) × (y.conn.resp ≡ x.conn.resp))

aborted-Safe :
    (x : Ctx Pool) (bytes : List ℕ)
    → Safe x.conn
    → Safe (liso_conn_err (record x { piped = bytes }) 500).1.conn
aborted-Safe x bytes s =
    conn_err-Safe (record x { piped = bytes }) 500 s.rooms s.orders.packed s.orders.small

stream-Written :
    (x : Ctx Pool) (write : ℕ → List ℕ → Option ℕ)
    → Safe x.conn
    → Written x (cn_stream_to_cgi x write liso_conn_err).1
unfolding cn_stream_to_cgi buf_reset
stream-Written x write s =
    let b = x.conn.buf in
    let rsize = if nonpositive (buf_rsize b) then 0 else buf_rsize b in
    let out = write_all write b rsize 0 rsize in
    elim (Bool-cases out.0) [
      | inl e ↦ rw e (record {
        safe = record {
          rooms = s.rooms;
          content = reset-Content x.conn.req.phase x.conn.req b (buf_reset b) refl refl s.content;
          orders = record {
            fresh = s.orders.fresh;
            aborted = s.orders.aborted;
            dynamic = s.orders.dynamic;
            relaying = ground (arith, s.orders.relaying);
            packed = s.orders.packed;
            small = s.orders.small;
          };
        };
        next = inr (refl, refl, refl);
      })
      | inr e ↦ rw e (record {
        safe = aborted-Safe x (x.piped ++ out.1) s;
        next = inl (conn_err-code (record x { piped = x.piped ++ out.1 }) 500);
      })
    ]

-- The program has its whole input: the buffer is empty, and the response is not in its header.
turn-Safe :
    (x y : Ctx Pool)
    → cgi_at x.conn.cgi.phase cgi_srv_to_cgi ≡ true
    → Safe x.conn
    → Written x y
    → Safe (turn_cgi y).conn
unfolding turn_cgi set_cgi
turn-Safe x y feeding s w = elim (Bool-cases (in_phase y.conn.req.phase req_done)) [
  | inl e ↦ rw e (record {
    rooms = w.safe.rooms;
    content = w.safe.content;
    orders = record {
      fresh = w.safe.orders.fresh;
      aborted = w.safe.orders.aborted;
      dynamic = ground (arith, s.orders.dynamic, w.next);
      relaying = ground (arith, w.next);
      packed = w.safe.orders.packed;
      small = w.safe.orders.small;
    };
  })
  | inr e ↦ rw e w.safe
]

pub feed-Safe : (io : Io) (x : Ctx Pool) → Keeps x (feed_cgi io x)
unfolding feed_cgi
feed-Safe io x s =
    elim (Bool-cases (not (is_static x.conn.req.type_) && cgi_at x.conn.cgi.phase cgi_srv_to_cgi)) [
      | inl e ↦ rw e (turn-Safe x _ (ground arith) s (stream-Written x io.cgi_write s))
      | inr e ↦ rw e s
    ]

-- A read of the program's output.
read-Safe :
    (x : Ctx Pool) (got : Option (List ℕ))
    → cgi_at x.conn.cgi.phase cgi_cgi_to_srv ≡ true
    → ((bytes : List ℕ) → got ≡ some bytes → length bytes ≤ bufsz)
    → Keeps x (cn_stream_from_cgi x got liso_conn_err).1
unfolding cn_stream_from_cgi set_cgi liso_conn_err
read-Safe x none relaying most s = record {
  rooms = s.rooms;
  content = tt;
  orders = record {
    fresh = inl (omega arith);
    aborted = inr refl;
    dynamic = inr (inr (omega arith));
    relaying = inr (inl refl);
    packed = s.orders.packed;
    small = s.orders.small;
  };
}
read-Safe x (some bytes) relaying most s =
    let a = s.rooms.allocated in
    record {
      rooms = record {
        allocated = omega (arith, length-write_at x.conn.buf.mem 0 bytes);
        last_allocated = s.rooms.last_allocated;
        last_high = s.rooms.last_high;
      };
      content = elim s.orders.relaying [
        | inl other ↦ absurd (ground (arith, other))
        | inr (inl p) ↦ abort-Content x.conn.req.phase x.conn.req _ p
        | inr (inr (p, z)) ↦
            done-Content x.conn.req.phase x.conn.req _ p (omega arith) (most bytes refl)
      ];
      orders = record {
        fresh = s.orders.fresh;
        aborted = s.orders.aborted;
        dynamic = ground (arith, s.orders.dynamic);
        relaying = ground (arith, s.orders.relaying);
        packed = s.orders.packed;
        small = s.orders.small;
      };
    }

after-Safe : (x : Ctx Pool) → Keeps x (after_read x)
unfolding after_read set_cgi
after-Safe x s = elim (Bool-cases (is_sending x.conn.cgi.buf_phase)) [
  | inl b ↦ elim (Bool-cases (cgi_at x.conn.cgi.phase cgi_done)) [
    | inl e ↦ rw (b, e) s
    | inr e ↦ rw (b, e) s
  ]
  | inr b ↦ elim (Bool-cases (cgi_at x.conn.cgi.phase cgi_done)) [
    | inl e ↦ rw (b, e) s
    | inr e ↦ rw (b, e) s
  ]
]

pub read_cgi-Safe : (io : Io) (x : Ctx Pool) → StdIo io → Keeps x (read_cgi io x)
unfolding read_cgi
read_cgi-Safe io x std s =
    elim (Bool-cases (
      pipe_ready x.conn.cgi.srv_in x.world.read_ready
      && cgi_at x.conn.cgi.phase cgi_cgi_to_srv
      && not (is_sending x.conn.cgi.buf_phase))) [
        | inl e ↦ rw e (after-Safe _ (read-Safe x io.cgi_read (ground arith) std.read_most s))
        | inr e ↦ rw e s
      ]
