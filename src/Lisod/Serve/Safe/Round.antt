-- ===== src/Lisod/Serve/Safe/Round.antt =====
-- A round over a connection, on the invariant of Conn/Safe.
use liso.Base.{inl, inr, Bool-cases, ◌&&◌, not}
use liso.Request.{is_static}
use liso.Response.{resp_in, resp_disabled}
use liso.Cgi.{is_sending}
use liso.Conn.{Ctx, Ret, alive, closed}
use liso.Conn.Safe.{Safe}
use liso.Conn.Dynamic.{cn_serve_dynamic}
use liso.Pool.{Pool}
use liso.Lisod.{liso_reset_or_close, liso_drop_conn}
use liso.Lisod.Serve.{
  Io, recv_stage, write_dynamic, serve_dynamic, serve_static, transitions, read_cgi, serve_conn,
  ◌>>=◌,
}
use liso.Lisod.Serve.Safe.{Lives, recv_stage-Safe}
use liso.Lisod.Serve.Safe.Std.{StdIo}
use liso.Lisod.Serve.Safe.Relay.{read_cgi-Safe}
use liso.Lisod.Serve.Safe.Answer.{transitions-Safe}
use liso.Lisod.Serve.Safe.Send.{dynamic-Lives, static-Lives, stop_writing-Lives}

write_dynamic-Lives :
    (io : Io) (x : Ctx Pool) → StdIo io → Safe x.conn → Lives Safe (write_dynamic io x)
unfolding write_dynamic
write_dynamic-Lives io x std s =
    elim (Bool-cases (x.world.write_ready x.conn.fd && is_sending x.conn.cgi.buf_phase)) [
      | inl e ↦ rw e (
          stop_writing-Lives
            (cn_serve_dynamic x io.dynamic_net (liso_reset_or_close io.reset_alloc) liso_drop_conn)
            (dynamic-Lives io.reset_alloc std.reset_room x io.dynamic_net s))
      | inr e ↦ rw e s
    ]

dynamic_stage-Lives :
    (io : Io) (x : Ctx Pool) → StdIo io → Safe x.conn → Lives Safe (serve_dynamic io x)
unfolding serve_dynamic
dynamic_stage-Lives io x std s = elim (Bool-cases (is_static x.conn.req.type_)) [
  | inl e ↦ rw e s
  | inr e ↦ rw e (write_dynamic-Lives io (read_cgi io x) std (read_cgi-Safe io x std s))
]

static_stage-Lives :
    (io : Io) (x : Ctx Pool) → StdIo io → Safe x.conn → Lives Safe (serve_static io x)
unfolding serve_static
static_stage-Lives io x std s =
    elim (Bool-cases
      (x.world.write_ready x.conn.fd && not (resp_in x.conn.resp.phase resp_disabled))) [
        | inl e ↦
            rw e (static-Lives io.reset_alloc std.reset_room x io.static_net io.now s std.send_most)
        | inr e ↦ rw e s
      ]

>>=-Lives :
    (r : Ret × Ctx Pool) (f : Ctx Pool → Ret × Ctx Pool)
    → Lives Safe r
    → ((y : Ctx Pool) → Safe y.conn → Lives Safe (f y))
    → Lives Safe (r >>= f)
>>=-Lives (alive, y) f s next = next y s
>>=-Lives (closed, y) f s next = tt

-- A round over a connection leaves it safe, if it leaves it alive.
pub serve_conn-Lives :
    (io : Io) (x : Ctx Pool) → StdIo io → Safe x.conn → Lives Safe (serve_conn io x)
unfolding serve_conn
serve_conn-Lives io x std s =
    >>=-Lives (recv_stage io x) _ (recv_stage-Safe io x s std.recv_most std.room) λ y t.
      >>=-Lives (serve_dynamic io (transitions io y)) (serve_static io)
        (dynamic_stage-Lives io (transitions io y) std (transitions-Safe io y std t))
        (λ z u. static_stage-Lives io z std u)
