-- ===== src/Replay/Page.antt =====
-- The payload cannot leave its script block, and the page is kept.
use ngx_http_pow_gate.Common.{
  ℕ, ◌≡◌, ◌≢◌, inl, inr, refl, arith, false, ◌==◌, List, [], ◌∷◌, ◌++◌, All, Bool-cases,
}
use ngx_http_pow_gate.Replay.{Captured, escaped, escape_markup, payload}

-- A byte that opens or closes no tag and starts no entity.
abbrev pub IsInert : ℕ → Type 0
IsInert c = (c ≢ b'<') × (c ≢ b'>') × (c ≢ b'&')

All-append : (s t : List ℕ) → All IsInert s → All IsInert t → All IsInert (s ++ t)
All-append [] t h k = k
All-append (c ∷ s) t (x, h) k = (x, All-append s t h k)

differs : (c d : ℕ) → (c == d) ≡ false → c ≢ d
differs c d h e = ground arith

inert : (c : ℕ) → (c == b'<') ≡ false → (c == b'>') ≡ false → (c == b'&') ≡ false → IsInert c
inert c l g a = (differs c b'<' l, differs c b'>' g, differs c b'&' a)

escaped-IsInert : (c : ℕ) → All IsInert (escaped c)
escaped-IsInert c = elim (Bool-cases (c == b'<')) [
  | inl lt ↦ rw lt (
    inert 92 refl refl refl,
    (
      inert 117 refl refl refl,
      (
        inert 48 refl refl refl,
        (inert 48 refl refl refl, (inert 51 refl refl refl, (inert 99 refl refl refl, tt))),
      ),
    ),
  )
  | inr l ↦ elim (Bool-cases (c == b'>')) [
    | inl gt ↦
        rw (l, gt)
          (
            inert 92 refl refl refl,
            (
              inert 117 refl refl refl,
              (
                inert 48 refl refl refl,
                (
                  inert 48 refl refl refl,
                  (inert 51 refl refl refl, (inert 101 refl refl refl, tt)),
                ),
              ),
            ),
          )
    | inr g ↦ elim (Bool-cases (c == b'&')) [
      | inl amp ↦
          rw (l, g, amp)
            (
              inert 92 refl refl refl,
              (
                inert 117 refl refl refl,
                (
                  inert 48 refl refl refl,
                  (
                    inert 48 refl refl refl,
                    (inert 50 refl refl refl, (inert 54 refl refl refl, tt)),
                  ),
                ),
              ),
            )
      | inr a ↦ rw (l, g, a) (inert c l g a, tt)
    ]
  ]
]

escape_markup-IsInert : (s : List ℕ) → All IsInert (escape_markup s)
unfolding escape_markup
escape_markup-IsInert [] = tt
escape_markup-IsInert (c ∷ s) =
    All-append (escaped c) (escape_markup s) (escaped-IsInert c) (escape_markup-IsInert s)

-- Whatever the JSON of a captured request is, the payload in the page holds no `<`, `>` or `&`,
-- so that it cannot end the script block around it.
pub payload-IsInert :
    (write_json : Captured → List ℕ) (captured : Captured)
    → All IsInert (payload write_json captured)
unfolding payload
payload-IsInert write_json captured = escape_markup-IsInert (write_json captured)
