-- ===== src/Replay/Inject.antt =====
-- Where the script block goes.
use ngx_http_pow_gate.Common.{
  ℕ, zero, suc, ◌-◌, ◌≤◌, ◌<◌, ◌≡◌, ◌⊎◌, inl, inr, refl, arith, true, ◌||◌, ltb, none, some, List,
  [], ◌∷◌, ◌++◌, length, take, drop, take-append-drop, Bool-cases, Option-cases,
}
use native.Mathlib.Decide.{dec_lt}
use ngx_http_pow_gate.Common.Bytes.{codes}
use ngx_http_pow_gate.Replay.{same_letters, search_down, is_empty, rfind_ci, unwrap_or, inject}

-- The needle stands at an index, in either case of its letters.
abbrev pub Matches : (haystack needle : List ℕ) → ℕ → Type 0
Matches haystack needle i = same_letters (take (length needle) (drop i haystack)) needle ≡ true

-- No index from `low` to before `high` is one of a match.
abbrev pub NoMatch : (haystack needle : List ℕ) (low high : ℕ) → Type 0
NoMatch haystack needle low high = (j : ℕ) → low ≤ j → j < high → ¬ Matches haystack needle j

module _ (haystack needle : List ℕ) where
  search_down-some :
      (k i : ℕ)
      → search_down haystack needle k ≡ some i
      → (i < k) × Matches haystack needle i × NoMatch haystack needle (suc i) k
  unfolding search_down
  search_down-some zero i h = absurd (cc)
  search_down-some (suc k) i h =
      elim (Bool-cases (same_letters (take (length needle) (drop k haystack)) needle)) [
        | inl here ↦
            let same : k ≡ i = cc (rw here at h) in
            rw (← same) (omega arith, here, (λ j lo hi m. absurd (omega arith)))
        | inr other ↦
            let (lt, found, later) = search_down-some k i (rw other at h) in
            (
              omega arith,
              found,
              (λ j lo hi m. elim (dec_lt j k) [
                | yes less ↦ later j lo less m
                | no more ↦ let same : j ≡ k = omega arith in absurd (cc (rw same at m))
              ]),
            )
      ]

  search_down-none : (k : ℕ) → search_down haystack needle k ≡ none → NoMatch haystack needle 0 k
  unfolding search_down
  search_down-none zero h j lo hi m = absurd (omega arith)
  search_down-none (suc k) h j lo hi m =
      elim (Bool-cases (same_letters (take (length needle) (drop k haystack)) needle)) [
        | inl here ↦ absurd (cc (rw here at h))
        | inr other ↦ elim (dec_lt j k) [
          | yes less ↦ search_down-none k (rw other at h) j lo less m
          | no more ↦ let same : j ≡ k = omega arith in absurd (cc (rw same at m))
        ]
      ]

-- The indices at which a needle fits into a haystack are those before this one.
abbrev pub places : (haystack needle : List ℕ) → ℕ
places haystack needle = suc (length haystack - length needle)

rfind_ci-some :
    (haystack needle : List ℕ) (i : ℕ)
    → rfind_ci haystack needle ≡ some i
    → (i < places haystack needle)
      × Matches haystack needle i
      × NoMatch haystack needle (suc i) (places haystack needle)
unfolding rfind_ci
rfind_ci-some haystack needle i h =
    elim (Bool-cases (is_empty needle || ltb (length haystack) (length needle))) [
      | inl out ↦ absurd (cc (rw out at h))
      | inr fits ↦ search_down-some haystack needle (places haystack needle) i (rw fits at h)
    ]

too_short :
    (needle : List ℕ) (n : ℕ)
    → is_empty needle || ltb n (length needle) ≡ true
    → (needle ≡ []) ⊎ (n < length needle)
too_short [] n h = inl refl
too_short (c ∷ needle) n h = inr (ground arith)

rfind_ci-none :
    (haystack needle : List ℕ)
    → rfind_ci haystack needle ≡ none
    → ((needle ≡ []) ⊎ (length haystack < length needle))
      ⊎ NoMatch haystack needle 0 (places haystack needle)
unfolding rfind_ci
rfind_ci-none haystack needle h =
    elim (Bool-cases (is_empty needle || ltb (length haystack) (length needle))) [
      | inl out ↦ inl (too_short needle (length haystack) out)
      | inr fits ↦ inr (search_down-none haystack needle (places haystack needle) (rw fits at h))
    ]

abbrev pub body_end : List ℕ
body_end = codes "</body>"

-- Where a tag goes: before the last `</body>`, or at the end of a page that has none.
abbrev pub IsPlace : List ℕ → ℕ → Type 0
IsPlace page at =
    (Matches page body_end at × NoMatch page body_end (suc at) (places page body_end))
    ⊎ ((at ≡ length page) × ((length page < 7) ⊎ NoMatch page body_end 0 (places page body_end)))

-- What is left of a page: all of it, with the tag at its place.
abbrev pub IsInjected : (page tag out : List ℕ) → Type 0
IsInjected page tag out =
    (front back : List ℕ) × (out ≡ front ++ (tag ++ back))
    × (front ++ back ≡ page)
    × ((at : ℕ) × (front ≡ take at page) × IsPlace page at)

-- The tag is put into a page that is kept whole around it, just before the last `</body>`, in
-- either case of its letters, or at the end when the page has none.
pub inject-IsInjected : (page tag : List ℕ) → IsInjected page tag (inject page tag)
unfolding inject
inject-IsInjected page tag =
    let at = unwrap_or (rfind_ci page body_end) (length page) in
    (take at page, drop at page, refl, take-append-drop at page, (at, refl, place))
  where
    none_left :
        ((body_end ≡ []) ⊎ (length page < length body_end))
          ⊎ NoMatch page body_end 0 (places page body_end)
        → (length page < 7) ⊎ NoMatch page body_end 0 (places page body_end)
    none_left (inl (inl bad)) = absurd (cc)
    none_left (inl (inr short)) = inl short
    none_left (inr nowhere) = inr nowhere

    place : IsPlace page (unwrap_or (rfind_ci page body_end) (length page))
    place = elim (Option-cases (rfind_ci page body_end)) [
      | inl nothing ↦ rw nothing (inr (refl, none_left (rfind_ci-none page body_end nothing)))
      | inr (i, found) ↦
          let (fits, here, later) = rfind_ci-some page body_end i found in
          rw found (inl (here, later))
    ]
