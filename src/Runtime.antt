-- ===== src/Runtime.antt =====
-- What the handlers read of a request, and the cookie that they set:
-- src/ngx-http-pow-gate/src/runtime.rs. The conversions of `String` and `str` from bytes, the
-- files and `pread` are parameters.
use ngx_http_pow_gate.Common.{
  ℕ, zero, suc, ◌+◌, ◌-◌, ◌*◌, ◌≤◌, ◌≡◌, Bool, true, false, not, ◌&&◌, ◌||◌, ltb, leb, ◌==◌,
  if◌then◌else◌, Option, none, some, List, [], ◌∷◌, ◌++◌, length, take, drop, ◌>>=◌,
}
use ngx_http_pow_gate.Common.Int.{ℤ, pos, negsuc, ltb_ℤ, ◌-ℤ◌}
use ngx_http_pow_gate.Common.Bytes.{codes, eq_bytes, be_value}
use ngx_http_pow_gate.Common.Parse.{split_once}
use ngx_http_pow_gate.Common.Assoc.{Map, Key, lookup, insert}
use ngx_http_pow_gate.Context.{IpAddr, v4, v6}
use ngx_http_pow_gate.Proof.{signed_decimal}
use ngx_http_pow_gate.RangeSet.{trim}
use ngx_http_pow_gate.Replay.{same_letters}
pub mod Body
pub mod Keys
mod Examples

abbrev pub Headers : Type 0
Headers = List (List ℕ × List ℕ)

-- `String::from_utf8_lossy` and `str::from_utf8`
pub record Text : Type 0 where
  pub lossy : List ℕ → List ℕ
  pub is_utf8 : List ℕ → Bool

-- `split`
unfoldable pub split_on : ℕ → List ℕ → List (List ℕ)
split_on sep [] = [] ∷ []
split_on sep (c ∷ s) = before c (split_on sep s)
  where
    before : ℕ → List (List ℕ) → List (List ℕ)
    before c [] = []
    before c (part ∷ parts) = if c == sep then [] ∷ part ∷ parts else (c ∷ part) ∷ parts

-- The first pair with the key: `filter_map`, `find` and `map`
unfoldable pub find_value : List ℕ → List (Option (List ℕ × List ℕ)) → Option (List ℕ)
find_value name [] = none
find_value name (none ∷ pairs) = find_value name pairs
find_value name (some (key, value) ∷ pairs) =
    let rest = find_value name pairs in if eq_bytes key name then some value else rest

unfoldable pub pairs_of : List (List ℕ) → List (Option (List ℕ × List ℕ))
pairs_of [] = []
pairs_of (part ∷ parts) = split_once b'=' (trim part) ∷ pairs_of parts

-- `cookie_value`
unfoldable pub cookie_value : List ℕ → List ℕ → Option (List ℕ)
cookie_value value name = find_value name (pairs_of (split_on b';' value))

abbrev pub or_else : Option (List ℕ) → Option (List ℕ) → Option (List ℕ)
or_else none rest = rest
or_else (some v) rest = some v

module _ (text : Text) where
  -- `cookie`
  unfoldable pub cookie : Headers → List ℕ → Option (List ℕ)
  cookie [] name = none
  cookie ((k, v) ∷ headers) name =
      let rest = cookie headers name in
      if same_letters k (codes "cookie")
      then or_else (cookie_value (text.lossy v) name) rest
      else rest

  -- `header`
  unfoldable pub header : Headers → List ℕ → Option (List ℕ)
  header [] name = none
  header ((k, v) ∷ headers) name =
      let rest = header headers name in if same_letters k name then some (text.lossy v) else rest

  -- `header_limited`
  unfoldable pub header_limited : Headers → List ℕ → ℕ → Option (List ℕ)
  header_limited [] name limit = none
  header_limited ((k, v) ∷ headers) name limit =
      let rest = header_limited headers name limit in
      let found = if ltb limit (length v) then none else if text.is_utf8 v then some v else none in
      if same_letters k name then found else rest

-- `client_ip`, of the bytes of the socket address, on a little-endian machine
unfoldable pub client_ip : Option (List ℕ) → Option IpAddr
client_ip none = none
client_ip (some sa) =
    let family = be_value (take 1 (drop 1 sa) ++ take 1 sa) in
    if family == 2
    then some (v4 (be_value (take 4 (drop 4 sa))))
    else if family == 10
    then some (v6 (be_value (take 16 (drop 8 sa))))
    else none

-- `content_length`
unfoldable pub content_length : ℤ → Option ℕ
content_length (pos zero) = none
content_length (pos (suc n)) = some (suc n)
content_length (negsuc n) = none

-- A buffer of the body: a range of the temporary file, which may be missing, bytes in memory, or
-- neither.
pub data Segment : Type 0 where
  in_file : Bool → (file_pos file_last : ℕ) → Segment
  in_memory : List ℕ → Segment
  nowhere : Segment

-- `pread`, by offset and size: the bytes, none at the end or on an error
module _ (pread : ℕ → ℕ → List ℕ) where
  -- The loop of `read_file_range`, with fuel; the outer `none` means that the fuel ran out.
  unfoldable pub read_range_loop :
      (fuel offset size : ℕ) (filled : List ℕ) → Option (Option (List ℕ))
  read_range_loop zero offset size filled = none
  read_range_loop (suc fuel) offset size filled =
      let chunk = pread (offset + length filled) (size - length filled) in
      let rest = read_range_loop fuel offset size (filled ++ chunk) in
      if ltb (length filled) size
      then (if length chunk == 0 then some none else rest)
      else some (some filled)

  abbrev pub finished : Option (Option (List ℕ)) → Option (List ℕ)
  finished none = none
  finished (some read) = read

  -- `read_file_range`: the bytes, or `false`
  unfoldable pub read_file_range : (offset size : ℕ) → Option (List ℕ)
  unfolding read_range_loop
  read_file_range offset size = finished (read_range_loop (suc size) offset size [])

  -- One buffer, after the bytes that have been collected
  unfoldable pub collect : (limit : ℕ) → List ℕ → Segment → Option (List ℕ)
  collect limit out (in_file present start end) =
      let length_of = end - start in
      if not (present && ltb start end)
      then some out
      else if ltb (limit - length out) length_of
      then none
      else (read_file_range start length_of >>= λ bytes. some (out ++ bytes))
  collect limit out (in_memory bytes) =
      if ltb (limit - length out) (length bytes) then none else some (out ++ bytes)
  collect limit out nowhere = some out

  -- The `while` loop of `request_body_limited` over the chain of buffers
  unfoldable pub collect_all : (limit : ℕ) → List ℕ → List Segment → Option (List ℕ)
  collect_all limit out [] = some out
  collect_all limit out (segment ∷ segments) =
      collect limit out segment >>= λ more. collect_all limit more segments

  -- `request_body_limited`
  unfoldable pub request_body_limited : Option (List Segment) → ℕ → Option (List ℕ)
  request_body_limited none limit = none
  request_body_limited (some segments) limit = collect_all limit [] segments

-- `CookieConfig`
pub record CookieConfig : Type 0 where
  pub name : List ℕ
  pub domain : Option (List ℕ)
  pub path : List ℕ
  pub samesite : List ℕ
  pub secure : Bool
  pub http_only : Bool
  pub max_age_secs : ℤ

abbrev domain_part : Option (List ℕ) → List ℕ
domain_part none = []
domain_part (some domain) = codes "; Domain=" ++ domain

abbrev flag : Bool → List ℕ → List ℕ
flag on text = if on then text else []

-- `build_set_cookie`
unfoldable pub build_set_cookie : List ℕ → CookieConfig → List ℕ
build_set_cookie value c =
    c.name
    ++ (b'=' ∷ value)
    ++ (codes "; Path=" ++ c.path)
    ++ domain_part c.domain
    ++ (codes "; Max-Age=" ++ signed_decimal c.max_age_secs)
    ++ (codes "; SameSite=" ++ c.samesite)
    ++ flag (c.secure || same_letters c.samesite (codes "None")) (codes "; Secure")
    ++ flag c.http_only (codes "; HttpOnly")

-- `MIN_HMAC_KEY_LEN`
abbrev pub min_hmac_key_len : ℕ
min_hmac_key_len = 16

-- `nonempty`
abbrev pub nonempty : List ℕ → List ℕ → List ℕ
nonempty [] default = default
nonempty (c ∷ s) default = c ∷ s

abbrev usable : Option (List ℕ) → List ℕ
usable none = []
usable (some bytes) = if leb min_hmac_key_len (length bytes) then bytes else []

module _ (read_file : List ℕ → Option (List ℕ)) ⦃paths : Key (List ℕ)⦄ where
  abbrev cached_or_read :
      List ℕ → Map (List ℕ) (List ℕ) → Option (List ℕ) → List ℕ × Map (List ℕ) (List ℕ)
  cached_or_read path cache (some key) = (key, cache)
  cached_or_read path cache none = let key = usable (read_file path) in (key, insert path key cache)

  -- `load_key`: the key, and the cache of the worker afterwards
  unfoldable pub load_key : List ℕ → Map (List ℕ) (List ℕ) → List ℕ × Map (List ℕ) (List ℕ)
  load_key path cache = cached_or_read path cache (lookup path cache)

-- `key_ok` of `build_cfg`
abbrev pub key_ok : List ℕ → Bool
key_ok key = leb min_hmac_key_len (length key)
