-- ===== src/Replay/Examples.antt =====
-- Runs of the theorems on a page.
use ngx_http_pow_gate.Common.{◌≡◌, refl, [], All}
use ngx_http_pow_gate.Common.Bytes.{codes}
use ngx_http_pow_gate.Replay.{Captured, payload, inject, rfind_ci, search_down, same_letters}
use ngx_http_pow_gate.Replay.Page.{IsInert, payload-IsInert}
use ngx_http_pow_gate.Replay.Inject.{IsInjected, inject-IsInjected}

inject_page : inject (codes "<p></BODY>x") (codes "T") ≡ codes "<p>T</BODY>x"
unfolding inject rfind_ci search_down same_letters
inject_page = refl

inject-IsInjected_example :
    IsInjected (codes "<p></BODY>x") (codes "T") (inject (codes "<p></BODY>x") (codes "T"))
inject-IsInjected_example = inject-IsInjected (codes "<p></BODY>x") (codes "T")

abbrev sample : Captured
sample = record {
  method = codes "POST";
  url = codes "/";
  content_type = codes "</script>";
  body = [];
}

payload-IsInert_example : All IsInert (payload (λ c. c.content_type) sample)
payload-IsInert_example = payload-IsInert (λ c. c.content_type) sample
