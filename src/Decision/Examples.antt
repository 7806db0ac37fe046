-- ===== src/Decision/Examples.antt =====
-- Decisions at inputs, and the theorems there.
use ngx_http_pow_gate.Common.{◌≡◌, refl, some, none}
use ngx_http_pow_gate.Common.Int.{pos}
use ngx_http_pow_gate.Common.Bytes.{codes, eq_bytes}
use ngx_http_pow_gate.Common.Parse.{split_once, strip_prefix, parse_unsigned, parse_i64}
use ngx_http_pow_gate.Decision.Grammar.{IsGuarded, parse-IsGuarded}
use ngx_http_pow_gate.Decision.{parse, parse_pair, parse_argument, challenge, challenge_no_js}

program : Unit {0}
unfolding parse parse_pair parse_argument eq_bytes split_once strip_prefix parse_unsigned parse_i64
program = tt

parse_texts :
    (parse (codes "challenge:200000") ≡ challenge (some 200000))
    × (parse (codes "challenge:js") ≡ challenge (some 1))
    × (parse (codes "challenge:0") ≡ challenge (some 1))
    × (parse (codes "challenge:nojs:-5") ≡ challenge_no_js (pos 1))
    × (parse (codes "challenge:nojs:xyz") ≡ challenge_no_js (pos 2))
    × (parse (codes "challenge:18446744073709551616") ≡ challenge none)
    × (parse (codes "verify:") ≡ challenge none)
    × (parse (codes "banana") ≡ challenge none)
unfolding program
parse_texts = (refl, refl, refl, refl, refl, refl, refl, refl)

parse-IsGuarded_example : IsGuarded (parse (codes "challenge:nojs:999"))
unfolding program
parse-IsGuarded_example = parse-IsGuarded (codes "challenge:nojs:999") (λ e. cc) (λ e. cc)
