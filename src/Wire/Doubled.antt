-- ===== src/Wire/Doubled.antt =====
-- A wire that can be run: a byte is written as two characters, and a tag repeats the length of
-- the message.
use ngx_http_pow_gate.Common.{
  ℕ, ◌+◌, ◌-◌, ◌*◌, ◌≤◌, ◌≡◌, refl, arith, Bool, true, ◌&&◌, leb, ◌==◌, Option, none, some, List,
  [], ◌∷◌, length, replicate, length-replicate, ◌>>=◌, ◌>>◌, require, >>=-eq-some, require-eq-some,
  leb→le,
}
use ngx_http_pow_gate.Common.Parse.{Lacks}
use ngx_http_pow_gate.Wire.{Wire, IsWire}

abbrev pub doubled : List ℕ → List ℕ
doubled [] = []
doubled (b ∷ bytes) = (b + 100) ∷ 1 ∷ doubled bytes

abbrev is_pair : ℕ → ℕ → Bool
is_pair a b = leb 100 a && b == 1

abbrev pub undoubled : List ℕ → Option (List ℕ)
undoubled [] = some []
undoubled (a ∷ []) = none
undoubled (a ∷ b ∷ s) = undoubled s >>= λ bytes. require (is_pair a b) >> some ((a - 100) ∷ bytes)

abbrev slice : ℕ → List ℕ → Option (List ℕ)
slice size bytes = require (leb (length bytes) size) >> some bytes

abbrev pub doubled_wire : Wire
doubled_wire = record {
  hmac_sha256 = λ key message. replicate 32 (length message);
  b64url = doubled;
  unb64url = undoubled;
  unb64url_into = λ s size. undoubled s >>= slice size;
}

undoubled-doubled : (bytes : List ℕ) → undoubled (doubled bytes) ≡ some bytes
undoubled-doubled [] = refl
undoubled-doubled (b ∷ bytes) = rw (undoubled-doubled bytes) (ground arith)

doubled-Lacks : (bytes : List ℕ) → Lacks b'.' (doubled bytes)
doubled-Lacks [] = tt
doubled-Lacks (b ∷ bytes) = (ground arith, (refl, doubled-Lacks bytes))

undoubled-shrinks : (s bytes : List ℕ) → undoubled s ≡ some bytes → 4 * length bytes ≤ 3 * length s
undoubled-shrinks [] bytes h = ground arith
undoubled-shrinks (a ∷ []) bytes h = absurd (cc)
undoubled-shrinks (a ∷ b ∷ s) bytes h =
    let (rest, read, h₁) = >>=-eq-some (undoubled s) _ h in
    let (pair, h₂) = require-eq-some (is_pair a b) _ h₁ in
    let ih = undoubled-shrinks s rest read in
    let e : (a - 100) ∷ rest ≡ bytes = cc in rw (← e) (omega arith)

le→leb : (m n : ℕ) → m ≤ n → leb m n ≡ true
le→leb m n h = ground arith

undoubled-fits :
    (s bytes : List ℕ) (size : ℕ)
    → undoubled s ≡ some bytes
    → length bytes ≤ size
    → (undoubled s >>= slice size) ≡ some bytes
undoubled-fits s bytes size read h = rw (read, le→leb (length bytes) size h) refl

undoubled-into :
    (s bytes : List ℕ) (size : ℕ)
    → (undoubled s >>= slice size) ≡ some bytes
    → (undoubled s ≡ some bytes) × (length bytes ≤ size)
undoubled-into s bytes size h =
    let (read, found, h₁) = >>=-eq-some (undoubled s) (slice size) h in
    let (short, h₂) = require-eq-some (leb (length read) size) (some read) h₁ in
    let e : read ≡ bytes = cc in rw (← e) (found, leb→le (length read) size short)

pub doubled_wire-IsWire : IsWire doubled_wire
doubled_wire-IsWire = record {
  tag_size = λ key message. length-replicate 32 (length message);
  decodes = undoubled-doubled;
  plain = doubled-Lacks;
  shrinks = undoubled-shrinks;
  fits = undoubled-fits;
  into = undoubled-into;
}
