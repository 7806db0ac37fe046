-- ===== src/Nojs/Timing.antt =====
-- The tests of a grant, and of its wait.
use ngx_http_pow_gate.Common.{ℕ, ◌<◌, ◌≡◌, refl, arith, true, List, Bool-cases, inl, inr}
use ngx_http_pow_gate.Common.Int.{
  ℤ, pos, ltb_ℤ, ltb_ℤ-false, ltb_ℤ→<ℤ, ≤ℤ→ltb_ℤ-false, <ℤ→ltb_ℤ, ◌≤ℤ◌, ◌<ℤ◌, abs_diff, add_i64,
}
use ngx_http_pow_gate.Mac.{ct_eq}
use ngx_http_pow_gate.Mac.Framing.{ct_eq_iff}
use ngx_http_pow_gate.Uri.{same_site_path}
use ngx_http_pow_gate.Nojs.{Grant, ok, too_early, is_current, timed}

-- A grant for the context, with a safe path, that waits for 1 to 30 seconds and was made less
-- than 120 seconds ago.
abbrev pub Current : ℤ → List ℕ → Grant → Type 0
Current now context grant =
    (grant.version ≡ 2)
    × (grant.context ≡ context)
    × (same_site_path grant.path ≡ true)
    × (pos 1 ≤ℤ grant.delay)
    × (grant.delay ≤ℤ pos 30)
    × (grant.iat ≤ℤ now)
    × (abs_diff now grant.iat < 120)

is_current-parts :
    (now : ℤ) (context : List ℕ) (g : Grant)
    → is_current now context g ≡ true
    → (g.version ≡ 2)
      × (ct_eq g.context context ≡ true)
      × (same_site_path g.path ≡ true)
      × (pos 1 ≤ℤ g.delay)
      × (g.delay ≤ℤ pos 30)
      × (g.iat ≤ℤ now)
      × (abs_diff now g.iat < 120)
unfolding is_current
is_current-parts now context g h = ground arith

pub is_current-Current :
    (now : ℤ) (context : List ℕ) (g : Grant)
    → is_current now context g ≡ true
    → Current now context g
is_current-Current now context g h =
    let (v, c, p, l, u, i, a) = is_current-parts now context g h in
    (v, (ct_eq_iff g.context context).0 c, p, l, u, i, a)

is_current-build :
    (now : ℤ) (context : List ℕ) (g : Grant)
    → g.version ≡ 2
    → ct_eq g.context context ≡ true
    → same_site_path g.path ≡ true
    → pos 1 ≤ℤ g.delay
    → g.delay ≤ℤ pos 30
    → g.iat ≤ℤ now
    → abs_diff now g.iat < 120
    → is_current now context g ≡ true
unfolding is_current
is_current-build now context g v c p l u i a = ground arith

pub Current-is_current :
    (now : ℤ) (context : List ℕ) (g : Grant)
    → Current now context g
    → is_current now context g ≡ true
Current-is_current now context g (v, c, p, l, u, i, a) =
    is_current-build now context g v ((ct_eq_iff g.context context).1 c) p l u i a

pub timed-ok :
    (now : ℤ) (g grant : Grant)
    → timed now g ≡ ok grant
    → (g ≡ grant) × (add_i64 g.iat g.delay ≤ℤ now)
unfolding timed
timed-ok now g grant h = elim (Bool-cases (ltb_ℤ now (add_i64 g.iat g.delay))) [
  | inl early ↦ absurd (cc (rw early at h))
  | inr late ↦ (cc (rw late at h), ltb_ℤ-false now (add_i64 g.iat g.delay) late)
]

pub timed-early :
    (now : ℤ) (g grant : Grant)
    → timed now g ≡ too_early grant
    → (g ≡ grant) × (now <ℤ add_i64 g.iat g.delay)
unfolding timed
timed-early now g grant h = elim (Bool-cases (ltb_ℤ now (add_i64 g.iat g.delay))) [
  | inl early ↦ (cc (rw early at h), ltb_ℤ→<ℤ now (add_i64 g.iat g.delay) early)
  | inr late ↦ absurd (cc (rw late at h))
]

pub timed-waited : (now : ℤ) (g : Grant) → add_i64 g.iat g.delay ≤ℤ now → timed now g ≡ ok g
unfolding timed
timed-waited now g h = rw (≤ℤ→ltb_ℤ-false now (add_i64 g.iat g.delay) h) refl

pub timed-waits : (now : ℤ) (g : Grant) → now <ℤ add_i64 g.iat g.delay → timed now g ≡ too_early g
unfolding timed
timed-waits now g h = rw (<ℤ→ltb_ℤ now (add_i64 g.iat g.delay) h) refl
