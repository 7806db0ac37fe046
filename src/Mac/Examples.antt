-- ===== src/Mac/Examples.antt =====
-- Runs of the theorems on fields and tags.
use ngx_http_pow_gate.Common.{ℕ, List, [], ◌∷◌}
use ngx_http_pow_gate.Common.Bytes.{codes}

abbrev two : List (List ℕ)
two = codes "ab" ∷ codes "c" ∷ []
