-- ===== src/Node/Sending/Fragments.antt =====
-- How many fragments a payload needs, and what the code computes.
use relinow.Prelude.{ℕ, zero, suc, ◌+◌, ◌-◌, ◌*◌, ◌/◌, ◌<◌, ◌≤◌, arith}
use native.Mathlib.Nat.{div-mul-le_self, lt-div-mul-add, div-lt_iff_lt-mul, mod-eq_of_lt}
use native.Mathlib.Numerals.{unary_clauses}
use relinow.Node.Sending.{fragment_count}

rounded_up :
    (q d n : ℕ)
    → 0 < d
    → 0 < n
    → q * d ≤ n + d - 1
    → n + d - 1 < q * d + d
    → (n ≤ q * d) × ((q - 1) * d < n)
rounded_up zero d n positive some_bytes under over = omega arith
rounded_up (suc q) d n positive some_bytes under over =
    let lower : q * d < n = omega arith in (omega arith, simp unary_clauses lower)

-- For a payload of at least one byte and at most 255 frames of a positive size, the count is the
-- least number of frames that hold it.
pub fragment_count_lem :
    (payload_len max_payload : ℕ)
    → 0 < max_payload
    → 0 < payload_len
    → payload_len ≤ 255 * max_payload
    → let n = fragment_count payload_len max_payload in
      (payload_len ≤ n * max_payload) × ((n - 1) * max_payload < payload_len)
unfolding fragment_count
fragment_count_lem payload_len max_payload positive some_bytes small =
    let total = payload_len + max_payload - 1 in
    let q = total / max_payload in
    let under : q * max_payload ≤ total = div-mul-le_self total max_payload in
    let over : total < q * max_payload + max_payload = lt-div-mul-add positive in
    let few : q < 256 = (div-lt_iff_lt-mul positive).1 (omega arith) in
    rw (mod-eq_of_lt few) (rounded_up q max_payload payload_len positive some_bytes under over)

-- A payload that needs 257 to 272 frames of the largest size passes for one that needs at most 16:
-- the count is cast to eight bits before it is compared with the limit of 16.
pub fragment_count_wraps :
    (payload_len : ℕ)
    → 256 * 241 < payload_len
    → payload_len ≤ 272 * 241
    → fragment_count payload_len 241 ≤ 16
unfolding fragment_count
fragment_count_wraps payload_len low high = omega arith
