-- ===== src/Cluster/Configured.antt =====
-- What a block of the configuration of a cluster may set: `configure` of
-- src/ngx-http-pow-gate/src/cluster.rs.
use ngx_http_pow_gate.Common.{
  ℕ, zero, suc, ◌+◌, ◌-◌, ◌≤◌, ◌≡◌, ◌≢◌, refl, arith, Bool, true, false, not, ◌&&◌, ◌||◌, leb, ◌==◌,
  Option, none, some, List, [], ◌∷◌, ◌++◌, length, ◌>>=◌, ◌>>◌, require, >>=-eq-some,
  require-eq-some, &&-left, &&-right, leb→le, ==_iff, subst, some_injective,
}
use ngx_http_pow_gate.Common.Assoc.{lookup}
use ngx_http_pow_gate.Common.Bytes.{codes}
use ngx_http_pow_gate.Common.Int.{ℤ, pos, ◌≤ℤ◌, leb_ℤ, leb_ℤ→≤ℤ}
use ngx_http_pow_gate.Common.Parse.{parse_u64, parse_i64}
use ngx_http_pow_gate.Binding.{lowercase}
use ngx_http_pow_gate.RangeSet.{trim}
use ngx_http_pow_gate.Cluster.Wiring.{is_empty}
use ngx_http_pow_gate.Cluster.Settings.{
  text, Values, names, Config, is_namespace_byte, is_hex, all, is_namespace, is_epoch, strip_line,
  or_default, number, in_bounds, nothing_left, without_all, epoch_of, password_of, issuer_of,
  is_account, parsed,
}
mod Examples

-- A text that is not empty and has at most so many bytes, each of them of a kind.
abbrev pub IsText : (kind : ℕ → Bool) (bound : ℕ) → List ℕ → Type 0
IsText kind bound s = (s ≢ []) × (length s ≤ bound) × (all kind s ≡ true)

abbrev pub IsBounded : {A : Type 0} → Config A → Type 0
IsBounded c =
    (10 ≤ c.timeout)
    × (c.timeout ≤ 5000)
    × (1 ≤ c.connections)
    × (c.connections ≤ 32)
    × (c.queue ≤ 1024)
    × (pos 1 ≤ℤ c.skew)
    × (c.skew ≤ℤ pos 60)

-- A user comes with a password, and both are short.
abbrev pub IsAccount : (username password : List ℕ) → Type 0
IsAccount username password =
    (length username ≤ 128) × (length password ≤ 512) × (username ≢ [] → password ≢ [])

not_empty : (s : List ℕ) → not (is_empty s) ≡ true → s ≢ []
not_empty [] h e = absurd (cc)
not_empty (c ∷ s) h e = absurd (cc)

is_namespace-IsText : (s : List ℕ) → is_namespace s ≡ true → IsText is_namespace_byte 64 s
unfolding is_namespace
is_namespace-IsText s h =
    let first = &&-left (not (is_empty s) && leb (length s) 64) _ h in
    (
      not_empty s (&&-left _ _ first),
      leb→le (length s) 64 (&&-right (not (is_empty s)) _ first),
      &&-right (not (is_empty s) && leb (length s) 64) _ h,
    )

module _ {A : Type 0} (sha256 : List ℕ → List ℕ) (parse_address : List ℕ → Option A)
    (read_text read_file : List ℕ → Option (List ℕ)) where
  epoch_of-hex :
      (values : Values) (epoch : List ℕ)
      → epoch_of sha256 parse_address read_text read_file values ≡ some epoch
      → (length epoch ≡ 64) × (all is_hex epoch ≡ true)
  unfolding epoch_of is_epoch
  epoch_of-hex values epoch h =
      let (path, e, h₁) = >>=-eq-some (lookup (codes "epoch_file") values) _ h in
      let (content, e₁, h₂) = >>=-eq-some (read_text path) _ h₁ in
      let low = lowercase (trim content) in
      let (ok, same) = require-eq-some (is_epoch low) (some low) h₂ in
      let here : low ≡ epoch = cc in
      subst (λ s. (length s ≡ 64) × (all is_hex s ≡ true)) here
        ((==_iff (length low) 64).0 (&&-left _ _ ok), &&-right (length low == 64) _ ok)

  password_of-short :
      (path : Option (List ℕ)) (password : List ℕ)
      → password_of sha256 parse_address read_text read_file path ≡ some password
      → length password ≤ 512
  unfolding password_of
  password_of-short none password h =
      let here : [] ≡ password = cc in subst (λ s. length s ≤ 512) here (omega arith)
  password_of-short (some path) password h =
      let (bytes, e, h₁) = >>=-eq-some (read_file path) _ h in
      let line = strip_line bytes in
      let (ok, same) =
        require-eq-some (not (is_empty line) && leb (length line) 512) (some line) h₁ in
      let here : line ≡ password = cc in
      subst (λ s. length s ≤ 512) here
        (leb→le (length line) 512 (&&-right (not (is_empty line)) _ ok))

username-IsAccount :
    (username password : List ℕ)
    → (leb (length username) 128 && (is_empty username || not (is_empty password))) ≡ true
    → length password ≤ 512
    → IsAccount username password
username-IsAccount username password h short = (
  leb→le (length username) 128 (&&-left _ _ h),
  short,
  both username password (&&-right (leb (length username) 128) _ h),
)
  where
    both : (u p : List ℕ) → (is_empty u || not (is_empty p)) ≡ true → u ≢ [] → p ≢ []
    both [] p e n = absurd (n refl)
    both (c ∷ u) [] e n = absurd (cc)
    both (c ∷ u) (d ∷ p) e n = λ k. absurd (cc k)

in_bounds-le :
    (timeout connections queue : ℕ) (skew : ℤ)
    → in_bounds timeout connections queue skew ≡ true
    → (10 ≤ timeout)
      × (timeout ≤ 5000)
      × (1 ≤ connections)
      × (connections ≤ 32)
      × (queue ≤ 1024)
      × (pos 1 ≤ℤ skew)
      × (skew ≤ℤ pos 60)
unfolding in_bounds
in_bounds-le timeout connections queue skew h = ground arith

module _ {A : Type 0} (sha256 : List ℕ → List ℕ) (parse_address : List ℕ → Option A)
    (read_text read_file : List ℕ → Option (List ℕ)) where
  -- A block that is taken names the cluster with 1 to 64 letters, digits, dashes or underscores,
  -- has an epoch of 64 hexadecimal digits, a user only with a password, and numbers within their
  -- bounds; its issuer is the hash of the name and the epoch.
  pub parsed-IsBounded :
      (values : Values) (c : Config A)
      → parsed sha256 parse_address read_text read_file values ≡ some c
      → IsText is_namespace_byte 64 c.namespace
        × ((length c.epoch ≡ 64) × (all is_hex c.epoch ≡ true))
        × IsAccount c.username c.password
        × IsBounded c
        × (c.issuer ≡ sha256 (codes "redis:" ++ c.namespace ++ b':' ∷ c.epoch))
  unfolding parsed issuer_of
  parsed-IsBounded values c h =
      let (address, e₁, h₁) = >>=-eq-some (lookup (codes "address") values >>= parse_address) _ h in
      let (namespace, e₂, h₂) = >>=-eq-some (lookup (codes "namespace") values) _ h₁ in
      let (named, h₃) = require-eq-some (is_namespace namespace) _ h₂ in
      let (epoch, e₄, h₄) =
        >>=-eq-some (epoch_of sha256 parse_address read_text read_file values) _ h₃ in
      let path = lookup (codes "password_file") values in
      let (password, e₅, h₅) =
        >>=-eq-some (password_of sha256 parse_address read_text read_file path) _ h₄ in
      let username = or_default (lookup (codes "username") values) in
      let (account, h₆) = require-eq-some _ _ h₅ in
      let (timeout, e₇, h₇) =
        >>=-eq-some (number parse_u64 500 (lookup (codes "timeout") values)) _ h₆ in
      let (connections, e₈, h₈) =
        >>=-eq-some (number parse_u64 4 (lookup (codes "connections") values)) _ h₇ in
      let (queue, e₉, h₉) =
        >>=-eq-some (number parse_u64 64 (lookup (codes "queue") values)) _ h₈ in
      let (skew, f₁, g₁) =
        >>=-eq-some (number parse_i64 (pos 5) (lookup (codes "clock_skew") values)) _ h₉ in
      let (within, g₂) = require-eq-some (in_bounds timeout connections queue skew) _ g₁ in
      let (none_left, g₃) = require-eq-some (nothing_left (without_all names values)) _ g₂ in
      let short = password_of-short sha256 parse_address read_text read_file path password e₅ in
      let same : record {
        address = address;
        namespace = namespace;
        epoch = epoch;
        issuer = sha256 (codes "redis:" ++ namespace ++ b':' ∷ epoch);
        username = username;
        password = password;
        timeout = timeout;
        connections = connections;
        queue = queue;
        skew = skew;
      }
          ≡ c =
        some_injective _ c g₃ in
      subst Sound same (
        is_namespace-IsText namespace named,
        epoch_of-hex sha256 parse_address read_text read_file values epoch e₄,
        username-IsAccount username password account short,
        in_bounds-le timeout connections queue skew within,
        refl,
      )
    where
      Sound : Config A → Type 0
      Sound c =
          IsText is_namespace_byte 64 c.namespace
          × ((length c.epoch ≡ 64) × (all is_hex c.epoch ≡ true))
          × IsAccount c.username c.password
          × IsBounded c
          × (c.issuer ≡ sha256 (codes "redis:" ++ c.namespace ++ b':' ∷ c.epoch))
