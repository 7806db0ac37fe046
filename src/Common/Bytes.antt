-- ===== src/Common/Bytes.antt =====
-- Byte strings: equality, prefixes, big-endian values, ASCII case and the searches of `str` and
-- `[u8]` that the code calls.
use ngx_http_pow_gate.Common.{
  ℕ, ◌+◌, ◌*◌, ◌^◌, ◌≤◌, ◌<◌, ◌≡◌, refl, ap, ◌↔◌, Bool, true, false, ◌&&◌, arith, ◌==◌, List, [],
  ◌∷◌, length, All, subst,
}
use native.Mathlib.Nat.{pow-zero, pow-suc, mul-le-mul_right}
use Prim.Native.Char.{code}
use Prim.Native.String.{String}

-- The code points of a literal: its bytes, as every literal of the code is ASCII.
abbrev pub codes : String → List ℕ
codes String.[] = []
codes (String.◌∷◌ c s) = code c ∷ codes s

-- `==` of two slices of bytes.
unfoldable pub eq_bytes : List ℕ → List ℕ → Bool
eq_bytes [] [] = true
eq_bytes [] (y ∷ ys) = false
eq_bytes (x ∷ xs) [] = false
eq_bytes (x ∷ xs) (y ∷ ys) = x == y && eq_bytes xs ys

pub eq_bytes_refl : (xs : List ℕ) → eq_bytes xs xs ≡ true
unfolding eq_bytes
eq_bytes_refl [] = refl
eq_bytes_refl (x ∷ xs) = ground (arith, eq_bytes_refl xs)

pub eq_bytes→≡ : (xs ys : List ℕ) → eq_bytes xs ys ≡ true → xs ≡ ys
unfolding eq_bytes
eq_bytes→≡ [] [] h = refl
eq_bytes→≡ [] (y ∷ ys) h = ground arith
eq_bytes→≡ (x ∷ xs) [] h = ground arith
eq_bytes→≡ (x ∷ xs) (y ∷ ys) h = ground (arith, eq_bytes→≡ xs ys)

pub eq_bytes_iff : (xs ys : List ℕ) → (eq_bytes xs ys ≡ true) ↔ (xs ≡ ys)
eq_bytes_iff xs ys = (eq_bytes→≡ xs ys, λ e. subst (λ z. eq_bytes xs z ≡ true) e (eq_bytes_refl xs))

-- `starts_with`, the text first.
unfoldable pub starts_with : List ℕ → List ℕ → Bool
starts_with s [] = true
starts_with [] (p ∷ ps) = false
starts_with (c ∷ s) (p ∷ ps) = c == p && starts_with s ps

-- The number that big-endian digits to the base 256 stand for, above an accumulator.
unfoldable pub be_from : ℕ → List ℕ → ℕ
be_from acc [] = acc
be_from acc (b ∷ bs) = be_from (acc * 256 + b) bs

-- `uN::from_be_bytes`.
unfoldable pub be_value : List ℕ → ℕ
unfolding be_from
be_value = be_from 0

abbrev pub IsByte : ℕ → Type 0
IsByte b = b < 256

abbrev pub AreBytes : List ℕ → Type 0
AreBytes = All IsByte

pub be_from_acc : (acc : ℕ) (bs : List ℕ) → be_from acc bs ≡ acc * 256 ^ length bs + be_from 0 bs
unfolding be_from
be_from_acc acc [] = rw (pow-zero 256) (omega arith)
be_from_acc acc (b ∷ bs) = omega (
  arith,
  be_from_acc (acc * 256 + b) bs,
  be_from_acc (0 * 256 + b) bs,
  ap (λ (p : ℕ). acc * p) (pow-suc 256 (length bs)),
)

pub be_value-cons : (b : ℕ) (bs : List ℕ) → be_value (b ∷ bs) ≡ b * 256 ^ length bs + be_value bs
unfolding be_value be_from
be_value-cons b bs = omega (arith, be_from_acc (0 * 256 + b) bs)

pub be_value-lt : (bs : List ℕ) → AreBytes bs → be_value bs < 256 ^ length bs
unfolding be_value be_from
be_value-lt [] h = rw (pow-zero 256) (omega arith)
be_value-lt (b ∷ bs) h =
    let digit : b * 256 ^ length bs ≤ 255 * 256 ^ length bs =
      mul-le-mul_right (256 ^ length bs) (omega arith) in
    rw be_value-cons (omega (arith, be_value-lt bs h.1, pow-suc 256 (length bs)))
