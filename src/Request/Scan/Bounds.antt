-- ===== src/Request/Scan/Bounds.antt =====
-- Where the scanning macros stop in a buffer whose content ends with a newline.
use liso.Base.{
  ℕ, zero, suc, ◌+◌, ◌-◌, ◌≤◌, ◌<◌, ◌≡◌, refl, ap, Bool, false, not, List, [], ◌∷◌, arith, length,
  take, drop, get_or, length-take, length-drop, ◌==◌,
}
use liso.CString.{is_space}
use liso.Buffer.{Buf, buf_end, slice}
use liso.Request.Scan.{issp, run_length, skip, proceed_inline, proceed_line}

-- The last byte of the content is '\n', the content lies in the allocation, and `data_p` in it.
pub record EndsLine (b : Buf) : Type 0 where
  pub before_end : b.data_p < b.sz
  pub allocated : b.sz ≤ length b.mem
  pub newline : get_or b.mem (b.sz - 1) 0 ≡ 10

pub get_or-drop : (m : List ℕ) (i k : ℕ) → get_or (drop i m) k 0 ≡ get_or m (i + k) 0
get_or-drop m zero k = ap (λ j. get_or m j 0) (omega arith)
get_or-drop [] (suc i) k = refl
get_or-drop (x ∷ m) (suc i) k = ground (arith, get_or-drop m i k)

pub get_or-take : (m : List ℕ) (n k : ℕ) → k < n → get_or (take n m) k 0 ≡ get_or m k 0
get_or-take m zero k h = elim h [ ]
get_or-take [] (suc n) k h = refl
get_or-take (x ∷ m) (suc n) zero h = refl
get_or-take (x ∷ m) (suc n) (suc k) h = get_or-take m n k (omega arith)

-- A scan stops at a byte that fails the test.
run_length-le :
    (test : ℕ → Bool) (s : List ℕ) (k : ℕ)
    → k < length s
    → test (get_or s k 0) ≡ false
    → run_length test s ≤ k
unfolding run_length
run_length-le test [] k h f = elim h [ ]
run_length-le test (c ∷ s) zero h f = rw f (omega arith)
run_length-le test (c ∷ s) (suc k) h f = ground (arith, run_length-le test s k)

-- A scan that stops at newlines does not pass the last one.
pub skip-EndsLine :
    (test : ℕ → Bool) (b : Buf)
    → test 10 ≡ false
    → EndsLine b
    → EndsLine (skip test b) × (b.data_p ≤ (skip test b).data_p)
unfolding skip buf_end
skip-EndsLine test b f v =
    let k = b.sz - 1 - b.data_p in
    let at : get_or (slice b.mem b.data_p (b.sz - b.data_p)) k 0 ≡ 10 = last k refl in
    let stop =
      run_length-le test (slice b.mem b.data_p (b.sz - b.data_p)) k (long k refl) (rw at f) in
    let h = v.before_end in
    (record { before_end = omega arith; allocated = v.allocated; newline = v.newline }, omega arith)
  where
    long : (k : ℕ) → k ≡ b.sz - 1 - b.data_p → k < length (slice b.mem b.data_p (b.sz - b.data_p))
    long k e =
        omega (
          arith,
          length-take (b.sz - b.data_p) (drop b.data_p b.mem),
          length-drop b.data_p b.mem,
          v,
        )

    last :
        (k : ℕ) → k ≡ b.sz - 1 - b.data_p → get_or (slice b.mem b.data_p (b.sz - b.data_p)) k 0 ≡ 10
    last k e =
        let i : b.data_p + k ≡ b.sz - 1 = omega (arith, v) in
        let inside : k < b.sz - b.data_p = omega (arith, v) in
        rw
          (
            get_or-take (drop b.data_p b.mem) (b.sz - b.data_p) k inside,
            get_or-drop b.mem b.data_p k,
            i,
          )
          v.newline

pub skip_same :
    (test : ℕ → Bool) (b : Buf) → ((skip test b).mem ≡ b.mem) × ((skip test b).sz ≡ b.sz)
unfolding skip
skip_same test b = (refl, refl)

-- What a macro leaves: the same content, `data_p` no further back and still in it.
pub record Ahead (b b' : Buf) : Type 0 where
  pub mem : b'.mem ≡ b.mem
  pub sz : b'.sz ≡ b.sz
  pub moved : b.data_p ≤ b'.data_p
  pub ends : EndsLine b'

pub Ahead-trans : {a b c : Buf} → Ahead a b → Ahead b c → Ahead a c
Ahead-trans p q = record {
  mem = rw p.mem at q.mem;
  sz = rw p.sz at q.sz;
  moved = let m = p.moved in let n = q.moved in omega arith;
  ends = q.ends;
}

skip-Ahead : (test : ℕ → Bool) (b : Buf) → test 10 ≡ false → EndsLine b → Ahead b (skip test b)
skip-Ahead test b f v = record {
  mem = (skip_same test b).0;
  sz = (skip_same test b).1;
  moved = (skip-EndsLine test b f v).1;
  ends = (skip-EndsLine test b f v).0;
}

pub proceed_inline-Ahead : (b : Buf) → EndsLine b → Ahead b (proceed_inline b).1
unfolding proceed_inline issp is_space
proceed_inline-Ahead b v =
    let p = skip-Ahead issp b refl v in
    Ahead-trans p (skip-Ahead (λ c. not (is_space c)) (skip issp b) refl p.ends)

pub proceed_line-Ahead : (b : Buf) → EndsLine b → Ahead b (proceed_line b).1
unfolding proceed_line issp
proceed_line-Ahead b v =
    let p = skip-Ahead issp b refl v in
    Ahead-trans p (skip-Ahead (λ c. not (c == 10)) (skip issp b) refl p.ends)
