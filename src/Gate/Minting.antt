-- ===== src/Gate/Minting.antt =====
-- Which requests get a clearance prepared.
use ngx_http_pow_gate.Common.{
  ℕ, ◌≡◌, refl, Bool, true, false, not, if◌then◌else◌, Option, none, some, List, Bool-cases,
  Option-cases, inl, inr, when-eq-some, subst, some_injective, length, ◌≤◌, ◌==◌, ◌&&◌, &&-left,
  &&-right, ==_iff,
}
use ngx_http_pow_gate.Common.Int.{ℤ, pos, add_i64}
use ngx_http_pow_gate.Common.Bytes.{codes}
use ngx_http_pow_gate.Context.{Assurance, pow, no_js}
use ngx_http_pow_gate.Finish.{Grant}
use ngx_http_pow_gate.Nojs
use ngx_http_pow_gate.Pow
use ngx_http_pow_gate.Proof.{verify_challenge, valid_public_key, first_is_four}
use ngx_http_pow_gate.Runtime.{Segment, request_body_limited}
use ngx_http_pow_gate.Runtime.Body.{request_body_limited-bound}
use ngx_http_pow_gate.Gate.{
  Request, Cfg, World, Submission, Action, redeem, client_context, or_empty,
}
use ngx_http_pow_gate.Gate.Endpoints.{
  pass, pass_with, passed, query_param, nojs_grant, verify_body, parsed, submission_for, submitted,
  solved, signed_by, checked_key, read_parsed, unavailable, challenge_of, pow_grant, verify_limit,
  rejected, equal_ℤ,
}

module _ (world : World) (cfg : Cfg) (r : Request) where
  -- An uncompressed point of the curve.
  pub record IsPublicKey (pk : List ℕ) : Type 0 where
    pub width : length pk ≡ 65
    pub four : first_is_four pk ≡ true
    pub on_curve : world.from_sec1_bytes pk ≡ true

  valid_public_key-IsPublicKey :
      (pk : List ℕ) → valid_public_key world.from_sec1_bytes pk ≡ true → IsPublicKey pk
  unfolding valid_public_key
  valid_public_key-IsPublicKey pk h =
      let shaped = &&-left (length pk == 65 && first_is_four pk) _ h in
      record {
        width = (==_iff (length pk) 65).0 (&&-left (length pk == 65) _ shaped);
        four = &&-right (length pk == 65) _ shaped;
        on_curve = &&-right (length pk == 65 && first_is_four pk) _ h;
      }

  -- A submission that has been redeemed, and the grant that was prepared for it.
  pub record Solved (difficulty : ℕ) (sub : Submission) (token : List ℕ) (expires : ℤ)
      (grant : Grant) : Type 0 where
    pub pk : List ℕ
    pub key_read : world.wire.unb64url sub.pubkey ≡ some pk
    pub key_valid : IsPublicKey pk
    pub context : List ℕ
    pub seen : client_context world cfg r ≡ some context
    pub verdict :
        Pow.verify_solution world.wire world.write_bound world.sha256 cfg.key
          (challenge_of world cfg r sub)
          sub.nonce
          pk
          context
          difficulty
          world.now
        ≡ Pow.ok
    pub signature : List ℕ
    pub signature_read : world.wire.unb64url sub.signature ≡ some signature
    pub signed : verify_challenge world.verify_signature pk sub.token signature ≡ true
    pub token_eq : token ≡ sub.token
    pub expires_eq : expires ≡ sub.exp
    pub grant_eq : grant ≡ pow_grant world cfg r pk context difficulty

  checked_key-eq-some :
      (o : Option (List ℕ)) (pk : List ℕ)
      → checked_key world cfg r o ≡ some pk
      → (o ≡ some pk) × IsPublicKey pk
  checked_key-eq-some none pk h = absurd (cc h)
  checked_key-eq-some (some key) pk h =
      let (valid, e) = when-eq-some (valid_public_key world.from_sec1_bytes key) (some key) h in
      (e, subst IsPublicKey (some_injective key pk e) (valid_public_key-IsPublicKey key valid))

  submitted-redeem :
      (difficulty : ℕ) (sub : Submission) (token : List ℕ) (expires : ℤ) (grant : Grant)
      → submitted world cfg r difficulty sub
          (checked_key world cfg r (world.wire.unb64url sub.pubkey))
          (client_context world cfg r)
        ≡ redeem token expires grant
      → Solved difficulty sub token expires grant
  unfolding submitted solved signed_by
  submitted-redeem difficulty sub token expires grant h =
      elim (Option-cases (checked_key world cfg r (world.wire.unb64url sub.pubkey))) [
        | inl nothing ↦ absurd (cc (rw nothing at h))
        | inr (pk, key_read) ↦ elim (Option-cases (client_context world cfg r)) [
          | inl nothing ↦ absurd (cc (rw (key_read, nothing) at h))
          | inr (context, seen) ↦
              let (decoded, valid) = checked_key-eq-some _ pk key_read in
              let (verdict, h1) = solved-redeem _ pk context (rw (key_read, seen) at h) in
              let (signature, signature_read, signed, same) = signed_by-redeem _ pk context h1 in
              let (token_eq, expires_eq, grant_eq) = redeem-eq same in
              record {
                pk = pk;
                key_read = decoded;
                key_valid = valid;
                context = context;
                seen = seen;
                verdict = verdict;
                signature = signature;
                signature_read = signature_read;
                signed = signed;
                token_eq = token_eq;
                expires_eq = expires_eq;
                grant_eq = grant_eq;
              }
        ]
      ]
    where
      redeem-eq :
          {t u : List ℕ} {d e : ℤ} {g k : Grant}
          → redeem t d g ≡ redeem u e k
          → (u ≡ t) × (e ≡ d) × (k ≡ g)
      redeem-eq e = (cc, cc, cc)

      solved-redeem :
          (v : Pow.Verdict) (pk context : List ℕ)
          → solved world cfg r pk context difficulty sub v ≡ redeem token expires grant
          → (v ≡ Pow.ok)
            × (signed_by world cfg r pk context difficulty sub (world.wire.unb64url sub.signature)
                ≡ redeem token expires grant)
      solved-redeem Pow.ok pk context e = (refl, e)
      solved-redeem Pow.expired pk context e = absurd (cc e)
      solved-redeem Pow.bad_token pk context e = absurd (cc e)
      solved-redeem Pow.wrong_solution pk context e = absurd (cc e)

      signed_by-redeem :
          (s : Option (List ℕ)) (pk context : List ℕ)
          → signed_by world cfg r pk context difficulty sub s ≡ redeem token expires grant
          → (signature : List ℕ) × (s ≡ some signature)
            × (verify_challenge world.verify_signature pk sub.token signature ≡ true)
            × (redeem sub.token sub.exp (pow_grant world cfg r pk context difficulty)
                ≡ redeem token expires grant)
      signed_by-redeem none pk context e = absurd (cc e)
      signed_by-redeem (some signature) pk context e =
          elim (Bool-cases (verify_challenge world.verify_signature pk sub.token signature)) [
            | inl signed ↦ (signature, refl, signed, rw signed at e)
            | inr unsigned ↦ absurd (cc (rw unsigned at e))
          ]

  submission_for-redeem :
      (required : Assurance) (sub : Submission) (token : List ℕ) (expires : ℤ) (grant : Grant)
      → submission_for world cfg r required sub ≡ redeem token expires grant
      → (difficulty : ℕ) × (required ≡ pow difficulty) × Solved difficulty sub token expires grant
  unfolding submission_for
  submission_for-redeem (no_js delay) sub token expires grant h = absurd (cc h)
  submission_for-redeem (pow difficulty) sub token expires grant h =
      (difficulty, refl, submitted-redeem difficulty sub token expires grant h)

  -- A clearance is prepared for a submission only with a usable key, under a decision that asks
  -- for work, from a body of at most 8192 bytes that reads as the submission, with a public key of
  -- 65 bytes that starts with 4 and is a point of the curve, whose solution verifies for just this
  -- key, context and difficulty at this time, and whose token is signed under the public key. The
  -- ledger is given the token of the submission and its expiry, and the grant is a clearance for
  -- that key, context and difficulty. `pread` returns no more than it is asked for.
  pub verify_body-redeem :
      (pread : ℕ → ℕ → List ℕ)
      → ((at size : ℕ) → length (pread at size) ≤ size)
      → (bufs : Option (List Segment)) (required : Assurance) (token : List ℕ) (expires : ℤ)
        (grant : Grant)
      → verify_body world cfg r pread bufs required ≡ redeem token expires grant
      → (cfg.key_ok ≡ true)
        × ((difficulty : ℕ) × (sub : Submission) × (body : List ℕ) × (required ≡ pow difficulty)
            × (request_body_limited pread bufs verify_limit ≡ some body)
            × (length body ≤ 8192)
            × (world.read_submission body ≡ some sub)
            × Solved difficulty sub token expires grant)
  unfolding verify_body parsed
  verify_body-redeem pread bounded bufs required token expires grant h =
      let (usable, h1) = if_usable cfg.key_ok _ h in
      let (difficulty, sub, same, read, s) =
        from_parsed (read_parsed world cfg r (request_body_limited pread bufs verify_limit)) h1 in
      let (body, got, submitted) =
        from_body (request_body_limited pread bufs verify_limit) sub read in
      let short = request_body_limited-bound pread bounded bufs verify_limit body got in
      (usable, (difficulty, sub, body, same, got, short, submitted, s))
    where
      if_usable :
          (b : Bool) (a : Action)
          → (if not b then rejected 503 else a) ≡ redeem token expires grant
          → (b ≡ true) × (a ≡ redeem token expires grant)
      if_usable true a e = (refl, e)
      if_usable false a e = absurd (cc e)

      from_body :
          (o : Option (List ℕ)) (sub : Submission)
          → read_parsed world cfg r o ≡ some sub
          → (body : List ℕ) × (o ≡ some body) × (world.read_submission body ≡ some sub)
      from_body none sub e = absurd (cc e)
      from_body (some body) sub e = (body, refl, e)

      from_parsed :
          (p : Option Submission)
          → parsed world cfg r required p ≡ redeem token expires grant
          → (difficulty : ℕ) × (sub : Submission) × (required ≡ pow difficulty)
            × (p ≡ some sub)
            × Solved difficulty sub token expires grant
      from_parsed none e = absurd (cc e)
      from_parsed (some sub) e =
          let (difficulty, same, s) = submission_for-redeem required sub token expires grant e in
          (difficulty, sub, same, refl, s)

  passed-redeem :
      (template context token : List ℕ) (delay : ℤ) (v : Nojs.Verdict) (t : List ℕ) (expires : ℤ)
      (grant : Grant)
      → passed world cfg r template context token delay v ≡ redeem t expires grant
      → (g : Nojs.Grant) × (v ≡ Nojs.ok g)
        × (equal_ℤ world cfg r g.delay delay ≡ true)
        × (t ≡ token)
        × (expires ≡ add_i64 g.iat (pos Nojs.nojs_grace))
        × (grant ≡ nojs_grant world cfg r context (no_js delay) g)
  unfolding passed
  passed-redeem template context token delay (Nojs.ok g) t expires grant h =
      elim (Bool-cases (equal_ℤ world cfg r g.delay delay)) [
        | inl same ↦
            let e : redeem token (add_i64 g.iat (pos Nojs.nojs_grace))
                  (nojs_grant world cfg r context (no_js delay) g)
                ≡ redeem t expires grant =
              rw same at h in
            (g, refl, same, cc, cc, cc)
        | inr other ↦ absurd (cc (rw other at h))
      ]
  passed-redeem template context token delay (Nojs.too_early g) t expires grant h = absurd (cc h)
  passed-redeem template context token delay Nojs.bad t expires grant h = absurd (cc h)

  pass_with-redeem :
      (template : List ℕ) (need : Assurance) (seen : Option (List ℕ)) (token : List ℕ) (expires : ℤ)
      (grant : Grant)
      → pass_with world cfg r template need seen ≡ redeem token expires grant
      → (delay : ℤ) × (context : List ℕ) × (g : Nojs.Grant) × (need ≡ no_js delay)
        × (seen ≡ some context)
        × (token ≡ or_empty (query_param r (codes "t")))
        × (Nojs.verify world.wire world.read_grant cfg.key token world.now context ≡ Nojs.ok g)
        × (equal_ℤ world cfg r g.delay delay ≡ true)
        × (expires ≡ add_i64 g.iat (pos Nojs.nojs_grace))
        × (grant ≡ nojs_grant world cfg r context (no_js delay) g)
  unfolding pass_with
  pass_with-redeem template (pow difficulty) seen token expires grant e = absurd (cc e)
  pass_with-redeem template (no_js delay) none token expires grant e = absurd (cc e)
  pass_with-redeem template (no_js delay) (some context) token expires grant e =
      let (g, verdict, same, et, ee, eg) =
        passed-redeem template context _ delay _ token expires grant e in
      (delay, context, g, refl, refl, et, rw et verdict, same, ee, eg)

  -- A clearance is prepared without JavaScript only with a usable key, under a decision that asks
  -- for a wait, for a grant in the query that verifies in the context of the request and whose
  -- wait is the one of the decision. The ledger is given the grant's own text and its end.
  pub pass-redeem :
      (template : List ℕ) (required : Assurance) (token : List ℕ) (expires : ℤ) (grant : Grant)
      → pass world cfg r template required ≡ redeem token expires grant
      → (cfg.key_ok ≡ true)
        × ((delay : ℤ) × (context : List ℕ) × (g : Nojs.Grant) × (required ≡ no_js delay)
            × (client_context world cfg r ≡ some context)
            × (token ≡ or_empty (query_param r (codes "t")))
            × (Nojs.verify world.wire world.read_grant cfg.key token world.now context ≡ Nojs.ok g)
            × (equal_ℤ world cfg r g.delay delay ≡ true)
            × (expires ≡ add_i64 g.iat (pos Nojs.nojs_grace))
            × (grant ≡ nojs_grant world cfg r context (no_js delay) g))
  unfolding pass
  pass-redeem template required token expires grant h =
      let (usable, h1) = if_usable cfg.key_ok _ h in
      (
        usable,
        pass_with-redeem template required (client_context world cfg r) token expires grant h1,
      )
    where
      if_usable :
          (b : Bool) (a : Action)
          → (if not b then unavailable else a) ≡ redeem token expires grant
          → (b ≡ true) × (a ≡ redeem token expires grant)
      if_usable true a e = (refl, e)
      if_usable false a e = absurd (cc e)
