-- ===== src/VerdictCache/Examples.antt =====
-- Runs of the cache with numbers for addresses, and the theorems at them.
use ngx_http_pow_gate.Common.{ℕ, ◌≡◌, refl, arith, true, List, [], ◌∷◌, ◌==◌, ==_iff}
use ngx_http_pow_gate.Common.Assoc.{Key, lookup, remove, insert, update, retain}
use ngx_http_pow_gate.VerdictCache.Bounded.{IsValid}
use ngx_http_pow_gate.VerdictCache.Verdicts.{Call, begins, completes, after, step, after-IsValid}
use ngx_http_pow_gate.VerdictCache.LateReply.{late_reply}
use ngx_http_pow_gate.VerdictCache.{
  VerdictCache, cached, start, full, new, begin, complete, is_fresh, sweep, admit, cancel, resolve,
}

instance abbrev address_key : Key ℕ
address_key = record { equal = ◌==◌; equal_iff = ==_iff }

program : Unit {0}
unfolding new begin complete is_fresh sweep admit cancel resolve after step lookup remove insert
    update retain
program = tt

-- The latest call first.
abbrev calls : List (Call ℕ)
calls = completes 7 1 true 12 ∷ begins 7 10 ∷ []

abbrev cache : VerdictCache ℕ
cache = after (new 1 100 0) calls

served : (begin 7 20 cache).0 ≡ cached true
unfolding program
served = refl

-- At its capacity the cache refuses another key, and keeps what it has.
refused : (begin 8 20 cache).0 ≡ full
unfolding program
refused = refl

-- Once the entry has lapsed it is swept away.
swept : (begin 8 500 cache).0 ≡ start 2
unfolding program
swept = refl

after-IsValid_example : IsValid cache
after-IsValid_example = after-IsValid 1 100 0 calls

-- The reply of the first query comes after the second was started.
abbrev pending : VerdictCache ℕ
pending = after (new 1 100 0) (begins 7 10 ∷ [])

late_reply_example : complete 7 1 true 310 (begin 7 300 pending).1 ≡ (begin 7 300 pending).1
unfolding program
late_reply_example = late_reply 7 300 310 1 2 true pending (omega arith) (omega arith) refl
