-- ===== src/Redis/Replies.antt =====
-- The replies that are read: `reply` of src/pow-gate-core/src/redis.rs.
use ngx_http_pow_gate.Common.{
  ℕ, suc, ◌+◌, ◌^◌, ◌≤◌, ◌<◌, ◌≡◌, refl, arith, false, ◌&&◌, ltb, ◌==◌, some, List, [], ◌∷◌, ◌++◌,
  length, take, Bool-cases, inl, inr, Option-cases, ap,
}
use ngx_http_pow_gate.Common.Int.{pos}
use ngx_http_pow_gate.Common.Bytes.{eq_bytes}
use ngx_http_pow_gate.Common.Parse.{Lacks, parse_i64}
use ngx_http_pow_gate.Common.Decimal.{decimal, parse_i64-decimal}
use ngx_http_pow_gate.Redis.{cr, lf, Reply, integer, whole, line_end, sorted, line_reply, reply}
use ngx_http_pow_gate.Redis.Framing.{decimal-Lacks}

line_end-bound : (s : List ℕ) (n : ℕ) → line_end s ≡ some n → n + 2 ≤ length s
unfolding line_end
line_end-bound [] n h = cc
line_end-bound (c ∷ []) n h = cc
line_end-bound (c ∷ d ∷ s) n h = elim (Bool-cases ((c == cr) && (d == lf))) [
  | inl here ↦ let e : some 0 ≡ some n = rw here at h in ground arith
  | inr more ↦ elim (Option-cases (line_end (d ∷ s))) [
    | inl nothing ↦ absurd (cc (rw (more, nothing) at h))
    | inr (m, found) ↦
        let e : some (suc m) ≡ some n = rw (more, found) at h in
        let ih = line_end-bound (d ∷ s) m found in ground arith
  ]
]

line_reply-used :
    (line : List ℕ) (n used : ℕ) (r : Reply) → line_reply line n ≡ whole r used → n ≡ used
unfolding line_reply sorted
line_reply-used [] n used r h = ground arith
line_reply-used (c ∷ s) n used r h = ground arith

-- A reply is taken from at most 1024 bytes, and the bytes that it uses, a line's end among them,
-- have all arrived: cutting them off the input is never out of range, and always makes progress.
pub reply-bounds :
    (input : List ℕ) (r : Reply) (used : ℕ)
    → reply input ≡ whole r used
    → (2 ≤ used) × (used ≤ length input) × (length input ≤ 1024)
unfolding reply
reply-bounds input r used h = elim (Bool-cases (ltb 1024 (length input))) [
  | inl long ↦ absurd (cc (rw long at h))
  | inr short ↦ elim (Option-cases (line_end input)) [
    | inl nothing ↦ absurd (cc (rw (short, nothing) at h))
    | inr (n, found) ↦
        let e = line_reply-used (take n input) (n + 2) used r (rw (short, found) at h) in
        let le = line_end-bound input n found in (omega arith, omega arith, ground arith)
  ]
]

line_end-line : (s rest : List ℕ) → Lacks cr s → line_end (s ++ cr ∷ lf ∷ rest) ≡ some (length s)
unfolding line_end
line_end-line [] rest h = refl
line_end-line (c ∷ []) rest h = rw h.0
line_end-line (c ∷ d ∷ s) rest h = rw (h.0, line_end-line (d ∷ s) rest h.1)

take-line : (s t : List ℕ) → take (length s) (s ++ t) ≡ s
take-line [] t = refl
take-line (c ∷ s) t = ap (λ r. c ∷ r) (take-line s t)

integer_line :
    (s : List ℕ) (used n : ℕ)
    → parse_i64 s ≡ some (pos n)
    → line_reply (b':' ∷ s) used ≡ whole (integer (pos n)) used
unfolding line_reply sorted eq_bytes
integer_line s used n h = rw h

-- The line that a server sends for a number below 2^63 is read as that number, with what it
-- uses, whatever follows it, if no more than 1024 bytes have come.
pub reply-decimal :
    (n : ℕ) (rest : List ℕ)
    → n < 2 ^ 63
    → length (b':' ∷ decimal n ++ cr ∷ lf ∷ rest) ≤ 1024
    → reply (b':' ∷ decimal n ++ cr ∷ lf ∷ rest) ≡ whole (integer (pos n)) (length (decimal n) + 3)
unfolding reply
reply-decimal n rest h room =
    let short : ltb 1024 (length (b':' ∷ decimal n ++ cr ∷ lf ∷ rest)) ≡ false = ground arith in
    let line : Lacks cr (b':' ∷ decimal n) = (refl, decimal-Lacks n) in
    rw
      (
        short,
        line_end-line (b':' ∷ decimal n) rest line,
        take-line (b':' ∷ decimal n) (cr ∷ lf ∷ rest),
        integer_line (decimal n) (suc (length (decimal n)) + 2) n (parse_i64-decimal n h),
      )
      (ap (whole (integer (pos n))) (omega arith))
