-- ===== src/Cgi/Child/Wiring.antt =====
-- Which ends of the pipes the child of `cgi_init` has.
use liso.Base.{zero, suc, ◌<◌, refl, [], ◌∷◌, ℕ, ◌≡◌, ◌≢◌, true, none, some, arith}
use liso.Cgi.{with_pipes, Cgi, Spawn, cgi_init}
use liso.CString.{Str}
use liso.Request.{Req}
use liso.Cgi.Env.{envp_new}
use liso.Cgi.Pipes.{cgi_init-true}
use liso.Cgi.Child.{Table, child_table, run_child, executes}

-- The pipes of a server with the descriptors `before`, whose three standard descriptors are open: their
-- ends were free, and the ends that the child keeps are not those that it closes.
pub record Apart {F : Type 0} (before : Table F) (i o e : ℕ × ℕ) : Type 0 where
  pub std : (fd : ℕ) → fd < 3 → (file : F) × (before fd ≡ some file)
  pub in_free : (before i.0 ≡ none) × (before i.1 ≡ none)
  pub out_free : (before o.0 ≡ none) × (before o.1 ≡ none)
  pub err_free : (before e.0 ≡ none) × (before e.1 ≡ none)
  pub in_apart : (i.0 ≢ i.1) × (i.0 ≢ o.0) × (i.0 ≢ e.0)
  pub out_apart : (o.1 ≢ i.1) × (o.1 ≢ o.0) × (o.1 ≢ e.0)
  pub err_apart : (e.1 ≢ i.1) × (e.1 ≢ o.0) × (e.1 ≢ e.0)

module _ {F : Type 0} where
  -- A descriptor that was free is above the standard ones.
  free_high :
      (before : Table F) (fd : ℕ)
      → ((k : ℕ) → k < 3 → (file : F) × (before k ≡ some file))
      → before fd ≡ none
      → 2 < fd
  free_high before zero std e = let (file, f) = std 0 (omega arith) in absurd (cc)
  free_high before (suc zero) std e = let (file, f) = std 1 (omega arith) in absurd (cc)
  free_high before (suc (suc zero)) std e = let (file, f) = std 2 (omega arith) in absurd (cc)
  free_high before (suc (suc (suc fd))) std e = omega arith

  child_table-std :
      (c : Cgi) (i o e : ℕ × ℕ) (before t : Table F) (ir ow ew : F)
      → Apart before i o e
      → t i.0 ≡ some ir
      → t o.1 ≡ some ow
      → t e.1 ≡ some ew
      → let u = child_table (with_pipes c i o e) t in
        (u 0 ≡ some ir)
        × (u 1 ≡ some ow)
        × (u 2 ≡ some ew)
        × (u i.1 ≡ none)
        × (u o.0 ≡ none)
        × (u e.0 ≡ none)
  unfolding child_table
  child_table-std c i o e before t ir ow ew a p q r =
      let high = free_high before in
      let i0 = high i.0 a.std a.in_free.0 in
      let i1 = high i.1 a.std a.in_free.1 in
      let o0 = high o.0 a.std a.out_free.0 in
      let o1 = high o.1 a.std a.out_free.1 in
      let e0 = high e.0 a.std a.err_free.0 in let e1 = high e.1 a.std a.err_free.1 in ground arith

  -- After a start of the CGI that succeeds, in a server with its three standard descriptors open, with pipes on
  -- descriptors that were free, the ends that the child keeps other than those that it closes: the program that the child becomes has the reading end of the first pipe as its
  -- stdin, and the writing ends of the others as stdout and stderr; the server keeps the opposite ends;
  -- and the child does not have those.
  pub cgi_init-run_child :
      (c : Cgi) (s : Spawn) (path : Str) (req : Req) (before t : Table F) (i o e : ℕ × ℕ)
      (ir ow ew : F)
      → (cgi_init c s).1 ≡ true
      → s.stdin_pipe ≡ some i
      → s.stdout_pipe ≡ some o
      → s.stderr_pipe ≡ some e
      → Apart before i o e
      → t i.0 ≡ some ir
      → t o.1 ≡ some ow
      → t e.1 ≡ some ew
      → let c' = (cgi_init c s).0 in
        (u : Table F) × (run_child (with_pipes c i o e) path req true t
          ≡ executes path (path ∷ []) (envp_new req) u)
        × (u 0 ≡ some ir)
        × (u 1 ≡ some ow)
        × (u 2 ≡ some ew)
        × (c'.srv_out ≡ some i.1)
        × (c'.srv_in ≡ some o.0)
        × (c'.srv_err ≡ some e.0)
        × (u i.1 ≡ none)
        × (u o.0 ≡ none)
        × (u e.0 ≡ none)
  unfolding run_child
  cgi_init-run_child c s path req before t i o e ir ow ew ok si so se a p q r =
      let (_, _, out, input, err, _, _) = cgi_init-true c s ok i o e si so se in
      let (in0, out1, err2, no_out, no_in, no_err) =
        child_table-std c i o e before t ir ow ew a p q r in
      (
        child_table (with_pipes c i o e) t,
        refl,
        in0,
        out1,
        err2,
        out,
        input,
        err,
        no_out,
        no_in,
        no_err,
      )

  -- The child has every descriptor of the server as the server has it, unless it is one of the three standard
  -- descriptors or one of the three ends that the child closes.
  pub child_table_inherits :
      (c : Cgi) (i o e : ℕ × ℕ) (t : Table F) (fd : ℕ)
      → 2 < fd
      → fd ≢ i.1
      → fd ≢ o.0
      → fd ≢ e.0
      → child_table (with_pipes c i o e) t fd ≡ t fd
  unfolding child_table
  child_table_inherits c i o e t fd high ne_out ne_in ne_err = ground arith
