-- ===== src/Cluster/Configured/Examples.antt =====
-- Runs of the theorem on a block of four lines.
use ngx_http_pow_gate.Common.{
  ℕ, ◌≡◌, refl, true, Option, none, some, List, [], ◌∷◌, ◌++◌, length, ◌>>=◌,
}
use ngx_http_pow_gate.Common.Assoc.{lookup, remove, insert}
use ngx_http_pow_gate.Common.Bytes.{codes, eq_bytes}
use ngx_http_pow_gate.Common.Int.{pos}
use ngx_http_pow_gate.RangeSet.{trim, trim_start, reverse}
use ngx_http_pow_gate.Cluster.Settings.{
  Values, Config, inner, known, is_namespace_byte, is_hex, all, is_namespace, is_epoch, strip_line,
  in_bounds, without_all, epoch_of, password_of, issuer_of, parsed,
}
use ngx_http_pow_gate.Cluster.Configured.{IsText, IsAccount, IsBounded, parsed-IsBounded}

-- The hash, the files and the parser of addresses are parameters; these are for the run.
abbrev some_hash : List ℕ → List ℕ
some_hash s = s

abbrev some_address : List ℕ → Option ℕ
some_address [] = none
some_address (c ∷ s) = some c

abbrev digits_16 : List ℕ
digits_16 = codes "0123456789abcdef"

abbrev digits_64 : List ℕ
digits_64 = digits_16 ++ digits_16 ++ digits_16 ++ digits_16

abbrev some_text : List ℕ → Option (List ℕ)
some_text path = some (digits_64 ++ 10 ∷ [])

abbrev some_file : List ℕ → Option (List ℕ)
some_file path = some (codes "pw" ++ 10 ∷ [])

abbrev lines : Option Values
lines = inner [] (codes "address" ∷ codes "1" ∷ []) >>= λ v.
    inner v (codes "namespace" ∷ codes "shop" ∷ []) >>= λ w.
    inner w (codes "epoch_file" ∷ codes "e" ∷ []) >>= λ x.
    inner x (codes "password_file" ∷ codes "p" ∷ [])

abbrev values : Values
values =
    (codes "password_file", codes "p")
    ∷ (codes "epoch_file", codes "e")
    ∷ (codes "namespace", codes "shop")
    ∷ (codes "address", codes "1")
    ∷ []

lines_read : lines ≡ some values
unfolding inner known eq_bytes lookup insert remove
lines_read = refl

-- A name twice is an error.
twice : inner values (codes "address" ∷ codes "2" ∷ []) ≡ none
unfolding inner known eq_bytes lookup
twice = refl

abbrev config : Config ℕ
config = record {
  address = 49;
  namespace = codes "shop";
  epoch = digits_64;
  issuer = codes "redis:" ++ codes "shop" ++ b':' ∷ digits_64;
  username = [];
  password = codes "pw";
  timeout = 500;
  connections = 4;
  queue = 64;
  skew = pos 5;
}

config_read : parsed some_hash some_address some_text some_file values ≡ some config
unfolding parsed epoch_of password_of issuer_of is_namespace is_epoch all strip_line in_bounds
    without_all lookup remove eq_bytes trim trim_start reverse
config_read = refl

parsed-IsBounded_example :
    IsText is_namespace_byte 64 config.namespace
    × ((length config.epoch ≡ 64) × (all is_hex config.epoch ≡ true))
    × IsAccount config.username config.password
    × IsBounded config
    × (config.issuer ≡ some_hash (codes "redis:" ++ config.namespace ++ b':' ∷ config.epoch))
parsed-IsBounded_example =
    parsed-IsBounded some_hash some_address some_text some_file values config config_read
