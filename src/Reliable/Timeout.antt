-- ===== src/Reliable/Timeout.antt =====
-- Timeouts and the round-trip estimate: the bounds of `relinow_compute_timeout_ms` and of the
-- moving average in `relinow_reliable_on_ack`.
use relinow.Prelude.{
  ℕ, ◌+◌, ◌*◌, ◌/◌, ◌-◌, ◌<◌, ◌≤◌, ◌≡◌, min, max, ap, arith, ltb, ◌==◌, u16, u32, sub32,
  if◌then◌else◌,
}
use relinow.Reliable.Types.{Ctx}
use relinow.Reliable.Sending.{compute_timeout_ms, smoothed_rtt_ms}

-- The multiple of the estimate that a retry index stands for, without any machine width.
pub ideal_timeout_ms : ℕ → ℕ → ℕ
ideal_timeout_ms rtt_ms ℕ.zero = rtt_ms * 3 / 2
ideal_timeout_ms rtt_ms (ℕ.suc ℕ.zero) = rtt_ms * 2
ideal_timeout_ms rtt_ms _ = rtt_ms * 3

-- For every 16-bit estimate and every retry index the timeout is 1.5, 2 or 3 times the estimate, for
-- the first send, the first retry and every later one, raised to 1 and capped at 65535: the 32-bit
-- product never wraps and the final cast loses nothing.
pub compute_timeout_ms_lem :
    (rtt_ms retry_index : ℕ)
    → rtt_ms < 65536
    → compute_timeout_ms rtt_ms retry_index
      ≡ min 65535 (max 1 (ideal_timeout_ms rtt_ms retry_index))
unfolding compute_timeout_ms ideal_timeout_ms
compute_timeout_ms_lem rtt_ms ℕ.zero h = ground arith
compute_timeout_ms_lem rtt_ms (ℕ.suc ℕ.zero) h = ground arith
compute_timeout_ms_lem rtt_ms (ℕ.suc (ℕ.suc n)) h = ground arith

pub compute_timeout_ms_bounds :
    (rtt_ms retry_index : ℕ)
    → (1 ≤ compute_timeout_ms rtt_ms retry_index) × (compute_timeout_ms rtt_ms retry_index < 65536)
unfolding compute_timeout_ms
compute_timeout_ms_bounds rtt_ms retry_index = ground arith

-- For a 16-bit estimate, the timeout of a later retry is never shorter.
pub compute_timeout_ms_mono :
    (rtt_ms i j : ℕ)
    → rtt_ms < 65536
    → i ≤ j
    → compute_timeout_ms rtt_ms i ≤ compute_timeout_ms rtt_ms j
unfolding compute_timeout_ms
compute_timeout_ms_mono rtt_ms i j h k = ground arith

-- The sample of the round trip: the time since the last transmission, at most 65535.
abbrev pub sample_ms : ℕ → ℕ → ℕ
sample_ms sent_ms now_ms = min 65535 (sub32 now_ms sent_ms)

mul_mono : (w x y : ℕ) → x ≤ y → w * x ≤ w * y
mul_mono w x y h = grind arith

-- A weighted sum, with weights that add up to 256, lies between 256 times the bounds.
weighted_bounds :
    (w a x y lo hi : ℕ)
    → w + a ≡ 256
    → (lo ≤ x) × (lo ≤ y)
    → (x ≤ hi) × (y ≤ hi)
    → (256 * lo ≤ w * x + a * y) × (w * x + a * y ≤ 256 * hi)
weighted_bounds w a x y lo hi e l h =
    let split = λ (t : ℕ) (f : w + a ≡ 256). ap (λ (s : ℕ). s * t) f in
    omega (
      arith,
      mul_mono w lo x l.0,
      mul_mono a lo y l.1,
      mul_mono w x hi h.0,
      mul_mono a y hi h.1,
      split lo e,
      split hi e,
    )

-- The estimate that the code computes, once its terms are known to stay below 2 ^ 32.
abbrev code_estimate : ℕ → ℕ → ℕ
code_estimate old_part new_part =
    let estimate = u16 (u32 (u32 old_part + u32 new_part) / 256) in
    if estimate == 0 then 1 else estimate

code_estimate_lem :
    (p q lo hi : ℕ)
    → (256 * lo ≤ p + q) × (p + q ≤ 256 * hi)
    → (1 ≤ hi) × (hi < 65536)
    → let new = code_estimate p q in
      (new ≡ max 1 ((p + q) / 256)) × (lo ≤ new) × (new ≤ hi) × (1 ≤ new) × (new < 65536)
code_estimate_lem p q lo hi b h = ground arith

-- For a weight of 8 bits and a positive estimate of 16 bits, the new estimate is the weighted mean
-- of the old one and the sample, rounded down and at least 1, with no wrap in the 32-bit sum; so
-- it lies between the two, and within 16 bits.
pub smoothed_rtt_ms_lem :
    (ctx : Ctx) (sent_ms now_ms : ℕ)
    → ctx.cfg.rtt_alpha_q8 < 256
    → (1 ≤ ctx.rtt_estimate_ms) × (ctx.rtt_estimate_ms < 65536)
    → let alpha = ctx.cfg.rtt_alpha_q8 in
      let old = ctx.rtt_estimate_ms in
      let sample = sample_ms sent_ms now_ms in
      let new = smoothed_rtt_ms ctx sent_ms now_ms in
      (new ≡ max 1 (((256 - alpha) * old + alpha * sample) / 256))
      × (min old sample ≤ new)
      × (new ≤ max old sample)
      × (1 ≤ new)
      × (new < 65536)
unfolding smoothed_rtt_ms
smoothed_rtt_ms_lem ctx sent_ms now_ms a b =
    let alpha = ctx.cfg.rtt_alpha_q8 in
    let old = ctx.rtt_estimate_ms in
    let sample = sample_ms sent_ms now_ms in
    rw (weight alpha a, clipped (sub32 now_ms sent_ms))
      (code_estimate_lem ((256 - alpha) * old) (alpha * sample) (min old sample) (max old sample)
        (weighted_bounds (256 - alpha) alpha old sample (min old sample) (max old sample)
          (omega arith) (omega arith) (omega arith))
        (omega arith))
  where
    weight : (alpha : ℕ) → alpha < 256 → sub32 256 alpha ≡ 256 - alpha
    weight alpha h = omega arith

    clipped : (t : ℕ) → (if ltb 65535 t then 65535 else t) ≡ min 65535 t
    clipped t = ground arith
