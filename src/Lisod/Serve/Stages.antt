-- ===== src/Lisod/Serve/Stages.antt =====
-- A round over a connection under the relation; the stages are in the children.
mod Recv
mod Transitions
mod Send
use liso.Base.{
  ℕ, ◌<◌, refl, Bool, true, false, length, arith, some, none, Option, Option-cases, inl, inr, List,
  [], ◌∷◌,
}
use liso.CString.{Str}
use liso.Buffer.{Alloc, Buf, buf_rsize, slice, buf_end, bufsz}
use liso.Base.{min, ◌+◌}
use liso.Request.{req_abort, is_method, m_head}
use liso.Base.{◌==◌, ◌||◌}
use liso.Conn.{Ctx, Ret, alive, closed, Net, smart_recv}
use liso.Conn.Recv.{
  cn_recv, room, take_recv, ssl_handshake, recv_ignore, set_phase, append_recv, Accept,
}
use liso.Conn.Static.{
  send_some, advance, header_sent, mapped_done, error_page, error_resp, cn_prepare_static_header,
  cn_serve_static, cn_send_error_page, serve_header, serve_body, body_sent, send_some, advance,
  error_page, error_resp,
}
use liso.Conn.Dynamic.{cn_init_cgi, cn_stream_to_cgi, cn_stream_from_cgi, cn_serve_dynamic, set_cgi}
use liso.Pool.{Pool}
use liso.Lisod.{liso_drop_conn, liso_conn_err, liso_reset_or_close, liso_cgi_inited}
use liso.Lisod.Serve.Relation.{
  Kept, Fate, Kept-refl, Kept-trans, Kept-Fate, >>=-Fate, InArray, Kept-InArray, call-Fate,
}
use liso.Lisod.Serve.Callbacks.{drop-Dropped, conn_err-Kept, parse_req-Kept, reset_or_close-Fate}
use liso.Lisod.Serve.{
  Io, recv_stage, prepare_static, start_cgi, stop_reading, turn_cgi, feed_cgi, after_read, read_cgi,
  stop_writing, write_dynamic, serve_dynamic, serve_static, transitions, serve_conn,
}
use liso.Lisod.Serve.Stages.Recv.{recv-Fate}
use liso.Lisod.Serve.Stages.Transitions.{transitions-Kept}
use liso.Lisod.Serve.Stages.Send.{serve_dynamic-Fate, serve_static-Fate}

-- One round over a connection of the array, whatever the system answers: if it is left alive, it
-- has its descriptor and its slot and the array is unchanged; if it is closed, the array is the old
-- one without its slot, and neither set that `select` watches holds its descriptor.
pub serve_conn-Fate :
    (io : Io) (x : Ctx Pool) → x.conn.idx < length x.world.conns → Fate x (serve_conn io x)
unfolding serve_conn
serve_conn-Fate io x h = >>=-Fate x (recv_stage io x) _ (recv-Fate io x h) λ y k.
    let k' = Kept-trans k (transitions-Kept io y) in
    let h' = Kept-InArray k' h in
    Kept-Fate (transitions-Kept io y) _ (
      >>=-Fate _ (serve_dynamic io (transitions io y)) (serve_static io)
        (serve_dynamic-Fate io _ h') (λ z l. serve_static-Fate io z (Kept-InArray l h')))
