-- ===== src/Cluster/Settings.antt =====
-- The block of a cluster in the configuration: `configure` and `inner` of
-- src/ngx-http-pow-gate/src/cluster.rs. SHA-256, the files and the parser of socket addresses are
-- parameters; text is trimmed and put in lower case as ASCII.
use ngx_http_pow_gate.Common.{
  ℕ, Bool, true, false, not, ◌&&◌, ◌||◌, leb, ◌==◌, if◌then◌else◌, Option, none, some, List, [],
  ◌∷◌, ◌++◌, length, ◌>>=◌, ◌>>◌, require,
}
use ngx_http_pow_gate.Common.Assoc.{Key, Map, lookup, remove, insert}
use ngx_http_pow_gate.Common.Bytes.{codes, eq_bytes, eq_bytes_iff}
use ngx_http_pow_gate.Common.Int.{ℤ, pos, leb_ℤ}
use ngx_http_pow_gate.Common.Parse.{parse_u64, parse_i64, is_digit}
use ngx_http_pow_gate.Binding.{lowercase}
use ngx_http_pow_gate.RangeSet.{trim}
use ngx_http_pow_gate.Cluster.Wiring.{is_empty}

instance abbrev pub text : Key (List ℕ)
text = record { equal = eq_bytes; equal_iff = eq_bytes_iff }

-- `HashMap<String, String>`
abbrev pub Values : Type 0
Values = Map (List ℕ) (List ℕ)

abbrev pub names : List (List ℕ)
names =
    codes "address"
    ∷ codes "namespace"
    ∷ codes "epoch_file"
    ∷ codes "username"
    ∷ codes "password_file"
    ∷ codes "timeout"
    ∷ codes "connections"
    ∷ codes "queue"
    ∷ codes "clock_skew"
    ∷ []

unfoldable pub known : List ℕ → List (List ℕ) → Bool
known name [] = false
known name (n ∷ ns) = eq_bytes n name || known name ns

abbrev pub is_none : Option (List ℕ) → Bool
is_none none = true
is_none (some s) = false

-- `inner`, of the words of a line: `none` is the error of the configuration.
unfoldable pub inner : Values → List (List ℕ) → Option Values
inner values (name ∷ value ∷ []) = do
  require (known name names)
  require (is_none (lookup name values))
  some (insert name value values)
inner values args = none

-- `Config`, with the address as the parser of addresses gives it
pub record Config (A : Type 0) : Type 0 where
  pub address : A
  pub namespace : List ℕ
  pub epoch : List ℕ
  pub issuer : List ℕ
  pub username : List ℕ
  pub password : List ℕ
  pub timeout : ℕ
  pub connections : ℕ
  pub queue : ℕ
  pub skew : ℤ

abbrev pub is_lower : ℕ → Bool
is_lower c = leb b'a' c && leb c b'z'

abbrev pub is_namespace_byte : ℕ → Bool
is_namespace_byte c =
    is_digit c || is_lower c || (leb b'A' c && leb c b'Z') || c == b'_' || c == b'-'

-- `is_ascii_hexdigit`
abbrev pub is_hex : ℕ → Bool
is_hex c = is_digit c || (leb b'a' c && leb c b'f') || (leb b'A' c && leb c b'F')

unfoldable pub all : (ℕ → Bool) → List ℕ → Bool
all test [] = true
all test (c ∷ s) = test c && all test s

unfoldable pub is_namespace : List ℕ → Bool
is_namespace s = not (is_empty s) && leb (length s) 64 && all is_namespace_byte s

unfoldable pub is_epoch : List ℕ → Bool
is_epoch s = length s == 64 && all is_hex s

-- `strip_suffix(b"\n")`
unfoldable pub strip_line : List ℕ → List ℕ
strip_line [] = []
strip_line (c ∷ []) = if c == 10 then [] else c ∷ []
strip_line (c ∷ d ∷ s) = c ∷ strip_line (d ∷ s)

abbrev pub or_default : Option (List ℕ) → List ℕ
or_default none = []
or_default (some s) = s

-- `map(parse).transpose().ok()?.unwrap_or(..)`
abbrev pub number : {N : Type 0} → (List ℕ → Option N) → N → Option (List ℕ) → Option N
number parse default none = some default
number parse default (some s) = parse s

unfoldable pub in_bounds : (timeout connections queue : ℕ) → ℤ → Bool
in_bounds timeout connections queue skew =
    (leb 10 timeout && leb timeout 5000)
    && (leb 1 connections && leb connections 32)
    && leb queue 1024
    && (leb_ℤ (pos 1) skew && leb_ℤ skew (pos 60))

unfoldable pub without_all : List (List ℕ) → Values → Values
without_all [] values = values
without_all (n ∷ ns) values = without_all ns (remove n values)

abbrev pub nothing_left : Values → Bool
nothing_left [] = true
nothing_left (e ∷ values) = false

module _ {A : Type 0} (sha256 : List ℕ → List ℕ) (parse_address : List ℕ → Option A)
    (read_text read_file : List ℕ → Option (List ℕ)) where
  unfoldable pub epoch_of : Values → Option (List ℕ)
  epoch_of values = do
    path ← lookup (codes "epoch_file") values
    content ← read_text path
    require (is_epoch (lowercase (trim content)))
    some (lowercase (trim content))

  unfoldable pub password_of : Option (List ℕ) → Option (List ℕ)
  password_of none = some []
  password_of (some path) = do
    bytes ← read_file path
    require (not (is_empty (strip_line bytes)) && leb (length (strip_line bytes)) 512)
    some (strip_line bytes)

  unfoldable pub issuer_of : (namespace epoch : List ℕ) → List ℕ
  issuer_of namespace epoch = sha256 (codes "redis:" ++ namespace ++ b':' ∷ epoch)

  abbrev pub is_account : (username password : List ℕ) → Bool
  is_account username password =
      leb (length username) 128 && (is_empty username || not (is_empty password))

  -- The value of `parsed`: each name is removed once, so that it is looked up as it was given.
  unfoldable pub parsed : Values → Option (Config A)
  parsed values = do
    address ← lookup (codes "address") values >>= parse_address
    namespace ← lookup (codes "namespace") values
    require (is_namespace namespace)
    epoch ← epoch_of values
    password ← password_of (lookup (codes "password_file") values)
    require (is_account (or_default (lookup (codes "username") values)) password)
    timeout ← number parse_u64 500 (lookup (codes "timeout") values)
    connections ← number parse_u64 4 (lookup (codes "connections") values)
    queue ← number parse_u64 64 (lookup (codes "queue") values)
    skew ← number parse_i64 (pos 5) (lookup (codes "clock_skew") values)
    require (in_bounds timeout connections queue skew)
    require (nothing_left (without_all names values))
    some (record {
      address = address;
      namespace = namespace;
      epoch = epoch;
      issuer = issuer_of namespace epoch;
      username = or_default (lookup (codes "username") values);
      password = password;
      timeout = timeout;
      connections = connections;
      queue = queue;
      skew = skew;
    })
