-- ===== src/Redis/Framing.antt =====
-- The framing of a command keeps its parts apart: `command` of src/pow-gate-core/src/redis.rs.
use ngx_http_pow_gate.Common.{
  ℕ, zero, suc, ◌+◌, ◌/◌, ◌%◌, ◌^◌, ◌<◌, ◌≡◌, refl, arith, false, ltb, ◌==◌, some, List, [], ◌∷◌,
  ◌++◌, length, Bool-cases, inl, inr, All, sym, ap, ◌∙◌,
}
use mathlib.Core.List.{append_assoc}
use ngx_http_pow_gate.Common.Parse.{split_once, split_once-append, Lacks, parse_unsigned}
use ngx_http_pow_gate.Common.Decimal.{decimal, decimal_digits, parse_unsigned-decimal}
use ngx_http_pow_gate.Mac.Framing.{append-inj}
use ngx_http_pow_gate.Redis.{cr, lf, bulk, bulks, command}

Lacks-snoc : (s : List ℕ) (d : ℕ) → Lacks cr s → (d == cr) ≡ false → Lacks cr (s ++ d ∷ [])
Lacks-snoc [] d h e = (e, tt)
Lacks-snoc (c ∷ s) d h e = (h.0, Lacks-snoc s d h.1 e)

decimal_digits-Lacks : (fuel n : ℕ) → Lacks cr (decimal_digits fuel n)
unfolding decimal_digits
decimal_digits-Lacks zero n = tt
decimal_digits-Lacks (suc fuel) n = elim (Bool-cases (ltb n 10)) [
  | inl small ↦ rw small (ground arith, tt)
  | inr large ↦ rw large (
      Lacks-snoc (decimal_digits fuel (n / 10)) (b'0' + n % 10) (decimal_digits-Lacks fuel (n / 10))
        (ground arith))
]

pub decimal-Lacks : (n : ℕ) → Lacks cr (decimal n)
unfolding decimal
decimal-Lacks n = decimal_digits-Lacks 20 n

some_injective : {A : Type 0} {a b : A} → some a ≡ some b → a ≡ b
some_injective e = cc

tail_injective : {c d : ℕ} {s t : List ℕ} → c ∷ s ≡ d ∷ t → s ≡ t
tail_injective e = cc

-- Two numbers in front of a carriage return.
numbers_agree :
    (m n : ℕ) (s t : List ℕ)
    → m < 2 ^ 64
    → n < 2 ^ 64
    → decimal m ++ cr ∷ s ≡ decimal n ++ cr ∷ t
    → (m ≡ n) × (s ≡ t)
numbers_agree m n s t hm hn e =
    let parts : ◌≡◌ {A = List ℕ × List ℕ} (decimal m, s) (decimal n, t) = some_injective (
      sym (split_once-append cr (decimal m) s (decimal-Lacks m))
      ∙ ap (split_once cr) e
      ∙ split_once-append cr (decimal n) t (decimal-Lacks n)) in
    let digits : decimal m ≡ decimal n = ap (λ p. p.0) parts in
    (
      some_injective (
          sym (parse_unsigned-decimal m hm)
          ∙ ap (parse_unsigned (2 ^ 64)) digits
          ∙ parse_unsigned-decimal n hn),
      ap (λ p. p.1) parts,
    )

abbrev pub Fits : List (List ℕ) → Type 0
Fits = All (λ part. length part < 2 ^ 64)

bulk-append :
    (a s : List ℕ) → bulk a ++ s ≡ b'$' ∷ (decimal (length a) ++ cr ∷ lf ∷ (a ++ cr ∷ lf ∷ s))
unfolding bulk
bulk-append a s = simp append_assoc

bulk_injective :
    (a b s t : List ℕ)
    → length a < 2 ^ 64
    → length b < 2 ^ 64
    → bulk a ++ s ≡ bulk b ++ t
    → (a ≡ b) × (s ≡ t)
bulk_injective a b s t ha hb e =
    let framed = sym (bulk-append a s) ∙ e ∙ bulk-append b t in
    let (size, rest) =
      numbers_agree (length a) (length b) (lf ∷ (a ++ cr ∷ lf ∷ s)) (lf ∷ (b ++ cr ∷ lf ∷ t)) ha hb
        (tail_injective framed) in
    let (same, ends) = append-inj a b (cr ∷ lf ∷ s) (cr ∷ lf ∷ t) size (tail_injective rest) in
    (same, tail_injective (tail_injective ends))

bulks_injective :
    (ps qs : List (List ℕ))
    → Fits ps
    → Fits qs
    → length ps ≡ length qs
    → bulks ps ≡ bulks qs
    → ps ≡ qs
unfolding bulks
bulks_injective [] [] fp fq l e = refl
bulks_injective [] (q ∷ qs) fp fq l e = absurd (omega arith)
bulks_injective (p ∷ ps) [] fp fq l e = absurd (omega arith)
bulks_injective (p ∷ ps) (q ∷ qs) fp fq l e =
    let (same, rest) = bulk_injective p q (bulks ps) (bulks qs) fp.0 fq.0 e in
    let others = bulks_injective ps qs fp.1 fq.1 (omega arith) rest in cc

command-eq : (ps : List (List ℕ)) → command ps ≡ b'*' ∷ (decimal (length ps) ++ cr ∷ lf ∷ bulks ps)
unfolding command
command-eq ps = simp append_assoc

-- Two lists of parts, whatever bytes they hold, are sent as the same bytes only if they are the
-- same, where their numbers and lengths are below 2^64: no part can end early, or pass for
-- another part or another command.
pub command_injective :
    (ps qs : List (List ℕ))
    → Fits ps
    → Fits qs
    → length ps < 2 ^ 64
    → length qs < 2 ^ 64
    → command ps ≡ command qs
    → ps ≡ qs
command_injective ps qs fp fq lp lq e =
    let (count, rest) =
      numbers_agree (length ps) (length qs) (lf ∷ bulks ps) (lf ∷ bulks qs) lp lq
        (tail_injective (sym (command-eq ps) ∙ e ∙ command-eq qs)) in
    bulks_injective ps qs fp fq count (tail_injective rest)
