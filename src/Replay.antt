-- ===== src/Replay.antt =====
-- The request that a challenge page carries: src/pow-gate-core/src/replay.rs. Text is ASCII; the
-- JSON of the payload is a parameter.
use ngx_http_pow_gate.Common.{
  ℕ, zero, suc, ◌+◌, ◌-◌, ◌≤◌, ◌≡◌, Bool, true, false, not, ◌&&◌, ◌||◌, ltb, leb, ◌==◌,
  if◌then◌else◌, Option, none, some, List, [], ◌∷◌, ◌++◌, length, take, drop,
}
use ngx_http_pow_gate.Common.Bytes.{codes, eq_bytes}
use ngx_http_pow_gate.Uri.{same_site_path}
pub mod Page
pub mod Inject
mod Examples

-- `to_ascii_lowercase`, which `eq_ignore_ascii_case` compares by
abbrev pub lower : ℕ → ℕ
lower c = if leb b'A' c && leb c b'Z' then c + 32 else c

unfoldable pub same_letters : List ℕ → List ℕ → Bool
same_letters [] [] = true
same_letters [] (d ∷ t) = false
same_letters (c ∷ s) [] = false
same_letters (c ∷ s) (d ∷ t) = lower c == lower d && same_letters s t

abbrev pub is_letter : ℕ → Bool
is_letter c = (leb b'a' c && leb c b'z') || (leb b'A' c && leb c b'Z')

abbrev pub all_letters : List ℕ → Bool
all_letters [] = true
all_letters (c ∷ s) = is_letter c && all_letters s

abbrev pub is_empty : List ℕ → Bool
is_empty [] = true
is_empty (c ∷ s) = false

-- `NEVER_REPLAYED`
unfoldable pub never_replayed : List ℕ → Bool
never_replayed method =
    same_letters (codes "GET") method
    || same_letters (codes "HEAD") method
    || same_letters (codes "TRACE") method
    || same_letters (codes "CONNECT") method

-- `method_replayable`
unfoldable pub method_replayable : List ℕ → Bool
method_replayable method =
    not (is_empty method) && all_letters method && not (never_replayed method)

-- `sanitize_content_type`
unfoldable pub printable : List ℕ → List ℕ
printable [] = []
printable (c ∷ s) = let rest = printable s in if leb b' ' c && leb c b'~' then c ∷ rest else rest

unfoldable pub sanitize_content_type : List ℕ → List ℕ
sanitize_content_type ct = take 200 (printable ct)

pub record Captured : Type 0 where
  pub method : List ℕ
  pub url : List ℕ
  pub content_type : List ℕ
  pub body : List ℕ

-- `Captured::new`
unfoldable pub new : (method url content_type body : List ℕ) → Option Captured
new method url content_type body =
    if not (method_replayable method) || not (same_site_path url)
    then none
    else some (record {
      method = method;
      url = url;
      content_type = sanitize_content_type content_type;
      body = body;
    })

abbrev pub escaped : ℕ → List ℕ
escaped c =
    if c == b'<'
    then codes "\\u003c"
    else if c == b'>'
    then codes "\\u003e"
    else if c == b'&'
    then codes "\\u0026"
    else c ∷ []

-- `escape_markup`
unfoldable pub escape_markup : List ℕ → List ℕ
escape_markup [] = []
escape_markup (c ∷ s) = escaped c ++ escape_markup s

module _ (write_json : Captured → List ℕ) where
  -- `payload` and `script_tag`
  unfoldable pub payload : Captured → List ℕ
  payload captured = escape_markup (write_json captured)

  unfoldable pub script_tag : Captured → List ℕ
  script_tag captured =
      codes "<script id=\"pow-replay\" type=\"application/json\">"
      ++ (payload captured ++ (codes "</script>" ++ 10 ∷ []))

-- The search of `rfind_ci` from an index down, which is the number of indices left less one.
unfoldable pub search_down : (haystack needle : List ℕ) → ℕ → Option ℕ
search_down haystack needle zero = none
search_down haystack needle (suc i) =
    let rest = search_down haystack needle i in
    if same_letters (take (length needle) (drop i haystack)) needle then some i else rest

-- `rfind_ci`
unfoldable pub rfind_ci : (haystack needle : List ℕ) → Option ℕ
rfind_ci haystack needle =
    if is_empty needle || ltb (length haystack) (length needle)
    then none
    else search_down haystack needle (suc (length haystack - length needle))

abbrev pub unwrap_or : Option ℕ → ℕ → ℕ
unwrap_or none n = n
unwrap_or (some m) n = m

-- `inject`
unfoldable pub inject : (page tag : List ℕ) → List ℕ
inject page tag =
    let at = unwrap_or (rfind_ci page (codes "</body>")) (length page) in
    take at page ++ (tag ++ drop at page)
