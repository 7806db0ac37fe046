-- ===== src/Runtime/Body.antt =====
-- The collection of a request body: `request_body_limited` and `read_file_range` of
-- src/ngx-http-pow-gate/src/runtime.rs.
use ngx_http_pow_gate.Common.{
  ℕ, zero, suc, ◌+◌, ◌-◌, ◌≤◌, ◌<◌, ◌≡◌, refl, arith, true, false, not, ◌&&◌, ltb, ◌==◌, Option,
  none, some, List, [], ◌∷◌, ◌++◌, length, length-append, Bool-cases, inl, inr, ◌∙◌, >>=-eq-some,
  ap,
}
use ngx_http_pow_gate.Runtime.{
  Segment, in_file, in_memory, nowhere, read_range_loop, read_file_range, collect, collect_all,
  request_body_limited,
}

append-bound :
    (limit n : ℕ) (xs ys : List ℕ)
    → length xs ≤ limit
    → length ys ≡ n
    → ltb (limit - length xs) n ≡ false
    → length (xs ++ ys) ≤ limit
append-bound limit n xs ys le size fits =
    rw length-append (room (length xs) (length ys) le (rw size fits))
  where
    room : (a b : ℕ) → a ≤ limit → ltb (limit - a) b ≡ false → a + b ≤ limit
    room a b le fits = ground arith

module _ (pread : ℕ → ℕ → List ℕ) where
  -- The loop of `read_file_range` ends whatever `pread` returns: one round for each byte that is
  -- missing, and one more, are enough.
  pub read_range_loop-total :
      (fuel offset size : ℕ) (filled : List ℕ)
      → size - length filled < fuel
      → (r : Option (List ℕ)) × (read_range_loop pread fuel offset size filled ≡ some r)
  unfolding read_range_loop
  read_range_loop-total zero offset size filled h = absurd (omega arith)
  read_range_loop-total (suc fuel) offset size filled h =
      elim (Bool-cases (ltb (length filled) size)) [
        | inr all ↦ rw all (some filled, refl)
        | inl left ↦
            let chunk = pread (offset + length filled) (size - length filled) in
            elim (Bool-cases (length chunk == 0)) [
              | inl ended ↦ rw (left, ended) (none, refl)
              | inr more ↦
                  rw (left, more)
                    (read_range_loop-total fuel offset size (filled ++ chunk)
                      (rw length-append (shrinks (length filled) (length chunk) size left more h)))
            ]
      ]
    where
      shrinks :
          (a b n : ℕ) → ltb a n ≡ true → (b == 0) ≡ false → n - a < suc fuel → n - (a + b) < fuel
      shrinks a b n lt more h = ground arith

  module _ (short : (offset size : ℕ) → length (pread offset size) ≤ size) where
    read_range_loop-length :
        (fuel offset size : ℕ) (filled bytes : List ℕ)
        → length filled ≤ size
        → read_range_loop pread fuel offset size filled ≡ some (some bytes)
        → length bytes ≡ size
    unfolding read_range_loop
    read_range_loop-length zero offset size filled bytes le h = absurd (cc h)
    read_range_loop-length (suc fuel) offset size filled bytes le h =
        elim (Bool-cases (ltb (length filled) size)) [
          | inr all ↦
              let same : filled ≡ bytes = cc (rw all at h) in
              rw (← same) (exactly (length filled) size le all)
          | inl left ↦
              let chunk = pread (offset + length filled) (size - length filled) in
              elim (Bool-cases (length chunk == 0)) [
                | inl ended ↦ absurd (cc (rw (left, ended) at h))
                | inr more ↦
                    read_range_loop-length fuel offset size (filled ++ chunk) bytes
                      (omega (
                        arith,
                        length-append filled chunk,
                        short (offset + length filled) (size - length filled),
                      ))
                      (rw (left, more) at h)
              ]
        ]
      where
        exactly : (a n : ℕ) → a ≤ n → ltb a n ≡ false → a ≡ n
        exactly a n le h = ground arith

    -- `read_file_range` of a `pread` that never returns more than it was asked for.
    read_file_range-length :
        (offset size : ℕ) (bytes : List ℕ)
        → read_file_range pread offset size ≡ some bytes
        → length bytes ≡ size
    unfolding read_file_range
    read_file_range-length offset size bytes h =
        let (r, e) = read_range_loop-total (suc size) offset size [] (omega arith) in
        let same : r ≡ some bytes = cc (rw e at h) in
        read_range_loop-length (suc size) offset size [] bytes (omega arith) (e ∙ ap some same)

    collect-bound :
        (limit : ℕ) (out : List ℕ) (segment : Segment) (more : List ℕ)
        → length out ≤ limit
        → collect pread limit out segment ≡ some more
        → length more ≤ limit
    unfolding collect
    collect-bound limit out nowhere more le h = let same : out ≡ more = cc in rw (← same) le
    collect-bound limit out (in_memory bytes) more le h =
        elim (Bool-cases (ltb (limit - length out) (length bytes))) [
          | inl long ↦ absurd (cc (rw long at h))
          | inr fits ↦
              let same : out ++ bytes ≡ more = cc (rw fits at h) in
              rw (← same) (append-bound limit (length bytes) out bytes le refl fits)
        ]
    collect-bound limit out (in_file present start end) more le h =
        elim (Bool-cases (not (present && ltb start end))) [
          | inl skip ↦ let same : out ≡ more = cc (rw skip at h) in rw (← same) le
          | inr read ↦ elim (Bool-cases (ltb (limit - length out) (end - start))) [
            | inl long ↦ absurd (cc (rw (read, long) at h))
            | inr fits ↦
                let (bytes, got, e) =
                  >>=-eq-some (read_file_range pread start (end - start)) _
                    (rw (read, fits) at h) in
                let same : out ++ bytes ≡ more = cc in
                rw (← same) (
                  append-bound limit (end - start) out bytes le
                    (read_file_range-length start (end - start) bytes got) fits)
          ]
        ]

    collect_all-bound :
        (limit : ℕ) (out : List ℕ) (segments : List Segment) (body : List ℕ)
        → length out ≤ limit
        → collect_all pread limit out segments ≡ some body
        → length body ≤ limit
    unfolding collect_all
    collect_all-bound limit out [] body le h = let same : out ≡ body = cc in rw (← same) le
    collect_all-bound limit out (segment ∷ segments) body le h =
        let (more, got, e) = >>=-eq-some (collect pread limit out segment) _ h in
        collect_all-bound limit more segments body (collect-bound limit out segment more le got) e

    -- A body that is collected has at most `limit` bytes, however the buffers lie in memory and in
    -- the temporary file, if `pread` returns no more than it is asked for.
    pub request_body_limited-bound :
        (segments : Option (List Segment)) (limit : ℕ) (body : List ℕ)
        → request_body_limited pread segments limit ≡ some body
        → length body ≤ limit
    unfolding request_body_limited
    request_body_limited-bound none limit body h = absurd (cc h)
    request_body_limited-bound (some segments) limit body h =
        collect_all-bound limit [] segments body (omega arith) h
