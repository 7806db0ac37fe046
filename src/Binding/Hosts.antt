-- ===== src/Binding/Hosts.antt =====
-- Which hosts share a scope: `Scope::for_host` of src/pow-gate-core/src/context.rs.
use ngx_http_pow_gate.Common.{ℕ, ◌≡◌, ◌↔◌, refl, Option, none, some, List, [], ◌∷◌, ◌++◌, ap}
use ngx_http_pow_gate.Binding.{undotted, lowercase, in_scope, host_scope, for_host}

module _ (write_text : List ℕ → List ℕ) (write_fields : (n p e y : List ℕ) → List ℕ) where
  abbrev pub host_scope_of : List ℕ → List ℕ → Option (List ℕ)
  host_scope_of tail host =
      for_host write_text write_fields (record { tail = tail; domain = none }) host

  -- Without a cookie domain, two hosts have one scope exactly if they are the same up to the case
  -- of their letters and leading dots, where the JSON of a text ends where it says.
  pub for_host-eq_iff :
      (tail h h' : List ℕ)
      → ((x y s t : List ℕ) → write_text x ++ s ≡ write_text y ++ t → x ≡ y)
      → (host_scope_of tail h ≡ host_scope_of tail h')
        ↔ (lowercase (undotted h) ≡ lowercase (undotted h'))
  unfolding for_host
  for_host-eq_iff tail h h' closed = hosts (undotted h) (undotted h')
    where
      tails : {c d : ℕ} {s t : List ℕ} → c ∷ s ≡ d ∷ t → s ≡ t
      tails e = cc

      insides : {s t : List ℕ} → some s ≡ some t → s ≡ t
      insides e = cc

      hosts :
          (x y : List ℕ)
          → (host_scope write_text write_fields tail x ≡ host_scope write_text write_fields tail y)
            ↔ (lowercase x ≡ lowercase y)
      hosts [] [] = (λ e. refl, λ e. refl)
      hosts [] (d ∷ y) = (λ e. absurd (cc e), λ e. absurd (cc e))
      hosts (c ∷ x) [] = (λ e. absurd (cc e), λ e. absurd (cc e))
      hosts (c ∷ x) (d ∷ y) = (
        λ e. closed (lowercase (c ∷ x)) (lowercase (d ∷ y)) tail tail (tails (insides e)),
        λ e. ap (λ host. some (in_scope write_text write_fields tail host)) e,
      )
