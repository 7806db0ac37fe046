-- ===== src/Uri/Paths.antt =====
-- Which paths are handed back to a client.
use ngx_http_pow_gate.Common.{
  ℕ, ◌<◌, ◌≡◌, ◌≢◌, ◌↔◌, refl, arith, Bool, true, false, not, ◌&&◌, List, [], ◌∷◌, All, &&-left,
  &&-right,
}
use ngx_http_pow_gate.Common.Bytes.{codes, starts_with}
use ngx_http_pow_gate.Uri.{is_safe_byte, all_safe, same_site_path}

-- A byte that leaves no header and no attribute: printable ASCII, no quote, angle bracket or
-- backslash.
abbrev pub IsSafe : ℕ → Type 0
IsSafe b = (32 < b) × (b < 127) × (b ≢ b'"') × (b ≢ b'<') × (b ≢ b'>') × (b ≢ 92)

is_safe_byte_iff : (b : ℕ) → (is_safe_byte b ≡ true) ↔ IsSafe b
unfolding is_safe_byte
is_safe_byte_iff b = (
  (λ h. (
    ground arith,
    ground arith,
    (λ e. ground arith),
    (λ e. ground arith),
    (λ e. ground arith),
    (λ e. ground arith),
  )),
  (λ (low, high, q, l, g, s). ground arith),
)

all_safe-All : (path : List ℕ) → all_safe path ≡ true → All IsSafe path
all_safe-All [] h = tt
all_safe-All (b ∷ path) h = (
  (is_safe_byte_iff b).0 (&&-left (is_safe_byte b) (all_safe path) h),
  all_safe-All path (&&-right (is_safe_byte b) (all_safe path) h),
)

All-all_safe : (path : List ℕ) → All IsSafe path → all_safe path ≡ true
All-all_safe [] h = refl
All-all_safe (b ∷ path) (safe, rest) = rw ((is_safe_byte_iff b).1 safe, All-all_safe path rest) refl

-- The head of a path: one slash, and not two.
abbrev pub IsAbsolute : List ℕ → Type 0
IsAbsolute [] = ⊥
IsAbsolute (a ∷ []) = a ≡ b'/'
IsAbsolute (a ∷ b ∷ path) = (a ≡ b'/') × (b ≢ b'/')

abbrev heads : List ℕ → Bool
heads path = starts_with path (codes "/") && not (starts_with path (codes "//"))

heads_iff : (path : List ℕ) → (heads path ≡ true) ↔ IsAbsolute path
unfolding starts_with
heads_iff [] = ((λ h. absurd (cc)), (λ h. absurd h))
heads_iff (a ∷ []) = ((λ h. ground arith), (λ e. rw e refl))
heads_iff (a ∷ b ∷ path) = ((λ h. (ground arith, (λ e. ground arith))), (λ (e, n). ground arith))

&&-split : (a b c : Bool) → a && b && c ≡ true → (a && b ≡ true) × (c ≡ true)
&&-split true true true h = (refl, refl)
&&-split true true false h = (refl, h)
&&-split true false c h = absurd (cc)
&&-split false b c h = absurd (cc)

&&-join : (a b c : Bool) → a && b ≡ true → c ≡ true → a && b && c ≡ true
&&-join true b c h e = rw (h, e) refl
&&-join false b c h e = h

-- A path is handed back just when it starts with one slash that no other slash follows, and all
-- its bytes are printable ASCII, with no quote, angle bracket or backslash among them.
pub same_site_path_iff :
    (path : List ℕ) → (same_site_path path ≡ true) ↔ (IsAbsolute path × All IsSafe path)
unfolding same_site_path
same_site_path_iff path = (
  (λ h.
      let (head, safe) = &&-split (starts_with path (codes "/")) _ (all_safe path) h in
      ((heads_iff path).0 head, all_safe-All path safe)),
  (λ (head, safe).
      &&-join (starts_with path (codes "/")) _ (all_safe path) ((heads_iff path).1 head)
        (All-all_safe path safe)),
)
