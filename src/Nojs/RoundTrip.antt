-- ===== src/Nojs/RoundTrip.antt =====
-- A grant that `issue` made is redeemed after its wait.
use ngx_http_pow_gate.Common.{
  ℕ, ◌≤◌, ◌<◌, ◌≡◌, refl, true, if◌then◌else◌, Option, some, List, length, Bool-cases, inl, inr,
}
use ngx_http_pow_gate.Common.Int.{ℤ, pos, ◌≤ℤ◌, abs_diff, add_i64}
use ngx_http_pow_gate.Common.Bytes.{codes, starts_with}
use ngx_http_pow_gate.Common.Parse.{split_once-append}
use ngx_http_pow_gate.Mac.{hmac}
use ngx_http_pow_gate.Uri.{is_safe_byte, same_site_path}
use ngx_http_pow_gate.Wire.{Wire, IsWire}
use ngx_http_pow_gate.Nojs.{Grant, ok, issue, verify, mac_input}
use ngx_http_pow_gate.Nojs.Verdicts.{verify-ok_iff}

-- The path of an issued grant: an unsafe one gives way to `/`.
abbrev pub safe_path : List ℕ → List ℕ
safe_path path = if same_site_path path then path else codes "/"

abbrev pub issued : Wire → (raw path : List ℕ) → (delay iat : ℤ) → (context : List ℕ) → Grant
issued w raw path delay iat context = record {
  path = safe_path path;
  context = context;
  id = w.b64url raw;
  version = 2;
  iat = iat;
  delay = delay;
}

root-safe : same_site_path (codes "/") ≡ true
unfolding same_site_path starts_with is_safe_byte
root-safe = refl

safe_path-safe : (path : List ℕ) → same_site_path (safe_path path) ≡ true
safe_path-safe path = elim (Bool-cases (same_site_path path)) [
  | inl safe ↦ rw (safe_path, safe) safe
  | inr other ↦ rw (safe_path, other) root-safe
]

module _ (w : Wire) (laws : IsWire w) (write_json : Grant → List ℕ)
    (read_json : List ℕ → Option Grant) (raw path context : List ℕ) (delay iat : ℤ) where
  abbrev pub grant : Grant
  grant = issued w raw path delay iat context

  -- A grant that `issue` made under the key, for a safe path or for / in place of an unsafe one,
  -- with a wait of 1 to 30 seconds, is redeemed in the same context once its wait is over, not
  -- before it was issued and before it is 120 seconds old, if its token has at most 8192 bytes and
  -- its JSON is read back.
  pub verify-issue_nojs :
      (key : List ℕ) (now : ℤ)
      → read_json (write_json grant) ≡ some grant
      → length (issue w write_json key raw path delay iat context) ≤ 8192
      → pos 1 ≤ℤ delay
      → delay ≤ℤ pos 30
      → iat ≤ℤ now
      → abs_diff now iat < 120
      → add_i64 iat delay ≤ℤ now
      → verify w read_json key (issue w write_json key raw path delay iat context) now context
        ≡ ok grant
  unfolding issue
  verify-issue_nojs key now parsed short low high past young waited =
      let payload_b64 = w.b64url (write_json grant) in
      let tag = hmac w.hmac_sha256 key (mac_input payload_b64) in
      (verify-ok_iff w read_json key (issue w write_json key raw path delay iat context) now context
          grant).1
        (
          (
            payload_b64,
            w.b64url tag,
            write_json grant,
            short,
            split_once-append b'.' payload_b64 (w.b64url tag) (laws.plain (write_json grant)),
            laws.decodes tag,
            laws.decodes (write_json grant),
            parsed,
          ),
          (refl, refl, safe_path-safe path, low, high, past, young),
          waited,
        )
