-- ===== src/Uri.antt =====
-- The paths that are handed back to a client: src/pow-gate-core/src/uri.rs.
pub mod Paths
use ngx_http_pow_gate.Common.{
  ℕ, ◌≤◌, ◌<◌, ◌≡◌, Bool, true, false, not, ◌&&◌, ◌||◌, ltb, leb, ◌==◌, List, [], ◌∷◌,
}
use ngx_http_pow_gate.Common.Bytes.{codes, starts_with}

-- A byte that a path may hold: printable, and none of `"<>\`.
unfoldable pub is_safe_byte : ℕ → Bool
is_safe_byte b = leb 33 b && ltb b 127 && not (b == b'"' || b == b'<' || b == b'>' || b == 92)

abbrev pub all_safe : List ℕ → Bool
all_safe [] = true
all_safe (b ∷ bytes) = is_safe_byte b && all_safe bytes

-- `same_site_path`
unfoldable pub same_site_path : List ℕ → Bool
same_site_path path =
    starts_with path (codes "/") && not (starts_with path (codes "//")) && all_safe path
