-- ===== src/Worker/Backoff.antt =====
-- The delay before a retry.
use native.Mathlib.Nat.{one-le-pow, pow-le-pow_right}
use proxmox_manager.Base.{
  ℕ, zero, suc, ◌+◌, ◌*◌, ◌/◌, ◌^◌, ◌≤◌, ◌<◌, ◌≡◌, refl, ap, ◌∙◌, arith, min,
}
use proxmox_manager.Worker.{base, max_delay, exponential, capped, backoff_delay}

exponential-small :
    (to_int64 : ℕ → ℕ)
    → ((n : ℕ) → n < 2 ^ 63 → to_int64 n ≡ n)
    → (k : ℕ) → k < 8
    → exponential to_int64 (suc k) ≡ 2 ^ k * base
unfolding exponential
exponential-small to_int64 small zero h = rw (small 1 (omega arith)) refl
exponential-small to_int64 small (suc zero) h = rw (small 2 (omega arith)) refl
exponential-small to_int64 small (suc (suc zero)) h = rw (small 4 (omega arith)) refl
exponential-small to_int64 small (suc (suc (suc zero))) h = rw (small 8 (omega arith)) refl
exponential-small to_int64 small (suc (suc (suc (suc zero)))) h = rw (small 16 (omega arith)) refl
exponential-small to_int64 small (suc (suc (suc (suc (suc zero))))) h =
    rw (small 32 (omega arith)) refl
exponential-small to_int64 small (suc (suc (suc (suc (suc (suc zero)))))) h =
    rw (small 64 (omega arith)) refl
exponential-small to_int64 small (suc (suc (suc (suc (suc (suc (suc zero))))))) h =
    rw (small 128 (omega arith)) refl
exponential-small to_int64 small (suc (suc (suc (suc (suc (suc (suc (suc k)))))))) h = omega arith

capped-min : (d : ℕ) → 1 ≤ d → d < 2 ^ 63 → capped d ≡ min d max_delay
capped-min d low high = ground arith

-- Where the conversion of a float below 2 ^ 63 is exact and the random numbers are below their
-- bound: the delay after attempt n, at most 8, is 15 s times 2 ^ (n - 1), or 300 s if that is more,
-- and a random quarter of it at most.
pub backoff-bounds :
    (to_int64 random : ℕ → ℕ)
    → ((n : ℕ) → n < 2 ^ 63 → to_int64 n ≡ n)
    → ((n : ℕ) → 1 ≤ n → random n < n)
    → (k : ℕ) → k < 8
    → let d = min (2 ^ k * base) max_delay in
      (d ≤ backoff_delay to_int64 random (suc k))
      × (backoff_delay to_int64 random (suc k) ≤ d + d / 4)
unfolding backoff_delay
backoff-bounds to_int64 random small below k h =
    let d : ℕ = min (2 ^ k * base) max_delay in
    let low : 1 ≤ 2 ^ k = one-le-pow k 2 (omega arith) in
    let high : 2 ^ k ≤ 2 ^ 7 =
      pow-le-pow_right {n = 2} (omega arith) {i = k} {j = 7} (omega arith) in
    let e : capped (exponential to_int64 (suc k)) ≡ d =
      ap capped (exponential-small to_int64 small k h)
      ∙ capped-min (2 ^ k * base) (omega arith) (omega arith) in
    let b : random (d / 4 + 1) < d / 4 + 1 = below (d / 4 + 1) (ground arith) in
    rw e (omega arith, omega arith)
