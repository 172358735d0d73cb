-- ===== src/Lisod/Serve/Safe/Std.antt =====
-- What the calls of one round promise, and what a stage keeps.
use liso.Base.{ℕ, ◌≤◌, ◌<◌, ◌≡◌, length, some, List}
use liso.Buffer.{bufsz}
use liso.Response.Build.Small.{StdFiles}
use liso.Conn.{Ctx}
use liso.Conn.Recv.Call.{GivesAtMost}
use liso.Conn.Safe.{Safe}
use liso.Conn.Static.Stream.{TakesAtMost}
use liso.Pool.{Pool}
use liso.Lisod.Serve.{Io}

-- What the calls of one round give: no more bytes than were asked for, allocations of BUFSZ bytes,
-- dates that fit into DATESZ, and file sizes that are not negative.
pub record StdIo (io : Io) : Type 0 where
  pub recv_most : GivesAtMost io.recv_net
  pub send_most : TakesAtMost io.static_net
  pub read_most : (bytes : List ℕ) → io.cgi_read ≡ some bytes → length bytes ≤ bufsz
  pub room : bufsz ≤ length io.alloc.bytes
  pub reset_room : bufsz ≤ length io.reset_alloc.bytes
  pub files : StdFiles io.files
  pub date : length io.now < 64

-- What a stage with no way to close the connection keeps.
abbrev pub Keeps : Ctx Pool → Ctx Pool → Type 0
Keeps x y = Safe x.conn → Safe y.conn
