-- ===== src/Cluster/Wiring/Loops.antt =====
-- The loops of `write` and `read` of src/ngx-http-pow-gate/src/cluster.rs end, and what a whole
-- reply leads to.
use ngx_http_pow_gate.Common.{
  ℕ, zero, suc, ◌+◌, ◌-◌, ◌≤◌, ◌<◌, ◌≡◌, refl, arith, Bool, true, false, ltb, ◌==◌, if◌then◌else◌,
  Option, some, List, [], ◌∷◌, ◌++◌, length, length-append, drop, Bool-cases, inl, inr, ◌⊎◌, ltb→lt,
}
use ngx_http_pow_gate.Redemption.{full}
use ngx_http_pow_gate.Redis.{integer, ok, null, error, Parsed, partial, whole, refused, reply}
use ngx_http_pow_gate.Cluster.Wiring.{
  Sent, Received, Written, Ended, Digest, more, done, write_loop, read_loop, digest, digest_eval,
  digest_auth, fails, ends, armed, rearmed, too_long,
}

armed-total : (rearm : Bool) (sent : ℕ) → (w : Written) × (armed sent rearm ≡ some w)
armed-total true sent = (Written.waits sent, refl)
armed-total false sent = (fails, refl)

rearmed-total : (auth arm : Bool) (input : List ℕ) → (e : Ended) × (rearmed auth input arm ≡ some e)
rearmed-total auth true input = (Ended.waits auth input, refl)
rearmed-total auth false input = (ends full false, refl)

-- The loop of `write` ends whatever `send` returns: one round for each byte that is left, and one
-- more, are enough, since a call that goes on has taken at least a byte.
pub write_loop-ends :
    (send : ℕ → Sent) (rearm : Bool) (size fuel k sent : ℕ)
    → size - sent < fuel
    → (w : Written) × (write_loop send rearm size fuel k sent ≡ some w)
unfolding write_loop
write_loop-ends send rearm size zero k sent h = absurd (omega arith)
write_loop-ends send rearm size (suc fuel) k sent h = elim (Bool-cases (ltb sent size)) [
  | inr all ↦ rw all (armed-total rearm sent)
  | inl left ↦ rw left (
      round (ltb→lt sent size left)
        (λ n some_sent. write_loop-ends send rearm size fuel (suc k) (sent + n) (ground arith))
        (send k))
]
  where
    round :
        sent < size
        → ((n : ℕ)
            → (n == 0) ≡ false
            → (w : Written) × (write_loop send rearm size fuel (suc k) (sent + n) ≡ some w))
        → (s : Sent)
        → (w : Written) × ((elim s [
          | Sent.again arm ↦ armed sent arm
          | Sent.broken ↦ some fails
          | Sent.bytes n ↦
              let rest = write_loop send rearm size fuel (suc k) (sent + n) in
              if n == 0 then some fails else rest
        ])
            ≡ some w)
    round lt go (Sent.again arm) = armed-total arm sent
    round lt go Sent.broken = (fails, refl)
    round lt go (Sent.bytes n) = elim (Bool-cases (n == 0)) [
      | inl none_sent ↦ rw none_sent (fails, refl)
      | inr some_sent ↦ rw some_sent (go n some_sent)
    ]

-- The rounds that `read` can have left: each takes at least a byte, and AUTH is answered once.
abbrev pub budget : Bool → ℕ → ℕ
budget auth size = (if auth then 1025 else 0) + (1025 - size)

digest-more :
    (auth auth' : Bool) (input input' : List ℕ)
    → digest auth input ≡ more auth' input'
    → ((auth' ≡ auth) × (input' ≡ input)) ⊎ ((auth ≡ true) × (auth' ≡ false))
unfolding digest
digest-more false auth' input input' h = evaluated (reply input) h
  where
    evaluated :
        (p : Parsed)
        → digest_eval input p ≡ more auth' input'
        → ((auth' ≡ false) × (input' ≡ input)) ⊎ ((false ≡ true) × (auth' ≡ false))
    evaluated partial e = inl (cc, cc)
    evaluated refused e = absurd (cc e)
    evaluated (whole r used) e = absurd (cc e)
digest-more true auth' input input' h = authorised (reply input) h
  where
    later : (p : Parsed) (left : List ℕ) → digest_eval left p ≡ more auth' input' → auth' ≡ false
    later partial left e = cc
    later refused left e = absurd (cc e)
    later (whole r used) left e = absurd (cc e)

    authorised :
        (p : Parsed)
        → digest_auth input p ≡ more auth' input'
        → ((auth' ≡ true) × (input' ≡ input)) ⊎ ((true ≡ true) × (auth' ≡ false))
    authorised partial e = inl (cc, cc)
    authorised refused e = absurd (cc e)
    authorised (whole ok used) e = inr (refl, later (reply (drop used input)) (drop used input) e)
    authorised (whole null used) e = absurd (cc e)
    authorised (whole error used) e = absurd (cc e)
    authorised (whole (integer n) used) e = absurd (cc e)

chunk_sizes :
    (input chunk : List ℕ)
    → too_long input chunk ≡ false
    → (0 < length chunk) × (length input + length chunk ≤ 1024)
chunk_sizes input [] h = absurd (cc h)
chunk_sizes input (c ∷ chunk) h = (omega arith, ground arith)

budget-lt :
    (auth auth' : Bool) (input input' chunk : List ℕ)
    → too_long input chunk ≡ false
    → digest auth (input ++ chunk) ≡ more auth' input'
    → budget auth' (length input') < budget auth (length input)
budget-lt auth auth' input input' chunk fits e =
    let (some_bytes, room) = chunk_sizes input chunk fits in
    elim (digest-more auth auth' (input ++ chunk) input' e) [
      | inl (same, whole_input) ↦ rw (same, whole_input) (omega (arith, length-append input chunk))
      | inr (before, later) ↦ rw (before, later) (omega arith)
    ]

-- The loop of `read` ends whatever `recv` returns: the input never holds more than 1024 bytes,
-- each round that goes on has added a byte to it or has taken the answer of AUTH off it, and that
-- is taken once, so that 2051 rounds are enough.
pub read_loop-ends :
    (recv : ℕ → Received) (fuel k : ℕ) (auth : Bool) (input : List ℕ)
    → budget auth (length input) < fuel
    → (e : Ended) × (read_loop recv fuel k auth input ≡ some e)
unfolding read_loop
read_loop-ends recv zero k auth input h = absurd (omega arith)
read_loop-ends recv (suc fuel) k auth input h =
    round (λ auth' input' less. read_loop-ends recv fuel (suc k) auth' input' (omega arith))
      (recv k)
  where
    Result : Option Ended → Type 0
    Result r = (e : Ended) × (r ≡ some e)

    digested :
        (chunk : List ℕ)
        → too_long input chunk ≡ false
        → ((auth' : Bool) (input' : List ℕ)
            → budget auth' (length input') < budget auth (length input)
            → Result (read_loop recv fuel (suc k) auth' input'))
        → (d : Digest) → digest auth (input ++ chunk) ≡ d
        → Result (elim d [
          | more auth' input' ↦ read_loop recv fuel (suc k) auth' input'
          | done outcome fenced ↦ some (ends outcome fenced)
        ])
    digested chunk fits go (done outcome fenced) e = (ends outcome fenced, refl)
    digested chunk fits go (more auth' input') e =
        go auth' input' (budget-lt auth auth' input input' chunk fits e)

    round :
        ((auth' : Bool) (input' : List ℕ)
          → budget auth' (length input') < budget auth (length input)
          → Result (read_loop recv fuel (suc k) auth' input'))
        → (r : Received)
        → Result (elim r [
          | Received.again arm ↦ rearmed auth input arm
          | Received.broken ↦ some (ends full false)
          | Received.bytes chunk ↦
              if too_long input chunk
              then some (ends full false)
              else elim (digest auth (input ++ chunk)) [
                | more auth' input' ↦ read_loop recv fuel (suc k) auth' input'
                | done outcome fenced ↦ some (ends outcome fenced)
              ]
        ])
    round go (Received.again arm) = rearmed-total auth arm input
    round go Received.broken = (ends full false, refl)
    round go (Received.bytes chunk) = elim (Bool-cases (too_long input chunk)) [
      | inl long ↦ rw long (ends full false, refl)
      | inr fits ↦ rw fits (digested chunk fits go (digest auth (input ++ chunk)) refl)
    ]
