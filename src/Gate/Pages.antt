-- ===== src/Gate/Pages.antt =====
-- The challenge pages: src/ngx-http-pow-gate/src/challenge.rs. The embedded solver is a parameter
-- by the value of `solver_query` and its bytes.
use ngx_http_pow_gate.Common.{ℕ, zero, suc, if◌then◌else◌, List, [], ◌∷◌, ◌++◌, length, drop}
use ngx_http_pow_gate.Common.Int.{ℤ}
use ngx_http_pow_gate.Common.Bytes.{codes, starts_with, eq_bytes}
use ngx_http_pow_gate.Common.Decimal.{decimal}
use ngx_http_pow_gate.Finish.{Response}
use ngx_http_pow_gate.Proof.{signed_decimal}

-- The loop of `replace_all` from an index on, with fuel: every round takes a byte or the needle,
-- which is not empty.
unfoldable pub replace_from : (fuel : ℕ) → (needle with_text haystack : List ℕ) → List ℕ
replace_from zero needle with_text haystack = []
replace_from (suc fuel) needle with_text [] = []
replace_from (suc fuel) needle with_text (c ∷ haystack) =
    let replaced =
      with_text ++ replace_from fuel needle with_text (drop (length needle) (c ∷ haystack)) in
    let kept = c ∷ replace_from fuel needle with_text haystack in
    if starts_with (c ∷ haystack) needle then replaced else kept

-- `replace_all`
unfoldable pub replace_all : (haystack needle with_text : List ℕ) → List ℕ
unfolding replace_from
replace_all haystack needle with_text = replace_from (length haystack) needle with_text haystack

abbrev quote : ℕ
quote = 39

-- The substitutions of `load_page`, with the value of `solver_query`
unfoldable pub rendered_page : (solver_query raw endpoint : List ℕ) → ℕ → List ℕ
rendered_page solver_query raw endpoint difficulty =
    let versioned = codes "{{endpoint}}solver.js?" ++ solver_query in
    let raw = replace_all raw (codes "{{endpoint}}solver.js\"") (versioned ++ codes "\"") in
    let raw =
      replace_all raw (codes "{{endpoint}}solver.js" ++ quote ∷ []) (versioned ++ quote ∷ []) in
    let rendered = replace_all raw (codes "{{difficulty}}") (decimal difficulty) in
    replace_all rendered (codes "{{endpoint}}") endpoint

abbrev pub html : List ℕ
html = codes "text/html; charset=utf-8"

-- `serve_nojs_page`
unfoldable pub nojs_page : (template pass_url : List ℕ) → ℤ → Response
nojs_page template pass_url delay = record {
  status = 200;
  content_type = html;
  body =
      replace_all (replace_all template (codes "{{pass_url}}") pass_url) (codes "{{delay}}")
        (signed_decimal delay);
  headers = (codes "Cache-Control", codes "no-store") ∷ [];
}

-- `serve_challenge_page`
unfoldable pub challenge_page : List ℕ → Response
challenge_page page = record { status = 200; content_type = html; body = page; headers = [] }

-- `serve_solver`
unfoldable pub solver : (solver_query solver_js args : List ℕ) → Response
solver solver_query solver_js args = record {
  status = 200;
  content_type = codes "text/javascript; charset=utf-8";
  body = solver_js;
  headers =
      (
        codes "Cache-Control",
        if eq_bytes args solver_query
            then codes "public, max-age=31536000, immutable"
            else codes "no-store",
      )
      ∷ [];
}
