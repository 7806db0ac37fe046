-- ===== src/Proof/Examples.antt =====
-- Runs of the theorems on a proof.
use ngx_http_pow_gate.Common.{ℕ, ◌≡◌, refl, arith, Bool, List, [], ◌∷◌, ◌==◌, length}
use ngx_http_pow_gate.Common.Int.{pos}
use ngx_http_pow_gate.Common.Bytes.{codes}
use ngx_http_pow_gate.Proof.{check, message}
use ngx_http_pow_gate.Proof.Window.{Says, check-Says, message-injective}

-- A signature repeats the length of the message.
abbrev signed : (pk message sig : List ℕ) → Bool
signed pk message sig = length message == length sig

check-Says_example :
    Says signed
      (4 ∷ [])
      (codes "GET")
      (codes "/")
      (pos 95)
      (1 ∷ [])
      (pos 100)
      (pos 30)
      (check signed (4 ∷ []) (codes "GET") (codes "/") (pos 95) (1 ∷ []) (pos 100) (pos 30))
check-Says_example =
    check-Says signed (4 ∷ []) (codes "GET") (codes "/") (pos 95) (1 ∷ []) (pos 100) (pos 30)
      (omega arith)

message-injective_example :
    (codes "GET" ≡ codes "GET") × (codes "/a" ≡ codes "/a") × (pos 95 ≡ pos 95)
message-injective_example =
    message-injective (codes "GET") (codes "/a") (codes "GET") (codes "/a") (pos 95) (pos 95)
      (refl, (refl, (refl, tt))) (refl, (refl, tt)) (refl, (refl, (refl, tt))) (refl, (refl, tt))
      (omega arith) (omega arith) refl
