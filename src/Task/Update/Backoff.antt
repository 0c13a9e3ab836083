-- ===== src/Task/Update/Backoff.antt =====
-- The backoff of crates/domain/src/task/mod.rs: its range, its formula and its growth.
use benri_stream.Prelude.{
  ℕ, zero, suc, ◌*◌, ◌/◌, ◌^◌, ◌≤◌, min, ◌≡◌, refl, arith, ℤ, pos, negsuc, ◌*ℤ◌, ◌≤ℤ◌, quot, min_ℤ,
  max_ℤ, as_signed, as_unsigned, saturate_i64, i64_max,
}
use native.Mathlib.Nat.{pow-le-pow_right}
use benri_stream.Task.Types.{TaskMetadata, millis_i64, seconds}
use benri_stream.Task.Update.{calculate_retry_delay, shl_one}

clamp_range :
    (x : ℤ)
    → (pos 0 ≤ℤ seconds (max_ℤ (min_ℤ x (pos 1800)) (pos 0)))
      × (seconds (max_ℤ (min_ℤ x (pos 1800)) (pos 0)) ≤ℤ seconds (pos 1800))
unfolding ◌*ℤ◌
clamp_range (pos n) = ground arith
clamp_range (negsuc n) = ground arith

-- For every type of task and every attempt count, also one that is negative or overflows on the
-- way, the delay is between 0 and 30 minutes.
pub calculate_retry_delay_bounds :
    (m : TaskMetadata) (attempt_count : ℤ)
    → (pos 0 ≤ℤ calculate_retry_delay m attempt_count)
      × (calculate_retry_delay m attempt_count ≤ℤ seconds (pos 1800))
unfolding calculate_retry_delay
calculate_retry_delay_bounds m n = clamp_range (
    quot
      (saturate_i64 (millis_i64 m.retry_base_delay *ℤ shl_one (as_unsigned 32 (min_ℤ n (pos 10)))))
      1000)

as_signed-pos : (n : ℕ) → n ≤ i64_max → as_signed 64 (pos n) ≡ pos n
unfolding as_signed
as_signed-pos n h = ground arith

as_unsigned-pos : (n : ℕ) → n ≤ 10 → as_unsigned 32 (pos n) ≡ n
unfolding as_unsigned
as_unsigned-pos n h = omega arith

shl_one_lem : (e : ℕ) → e ≤ 10 → shl_one e ≡ pos (2 ^ e)
unfolding shl_one as_signed
shl_one_lem zero h = refl
shl_one_lem (suc zero) h = refl
shl_one_lem (suc (suc zero)) h = refl
shl_one_lem (suc (suc (suc zero))) h = refl
shl_one_lem (suc (suc (suc (suc zero)))) h = refl
shl_one_lem (suc (suc (suc (suc (suc zero))))) h = refl
shl_one_lem (suc (suc (suc (suc (suc (suc zero)))))) h = refl
shl_one_lem (suc (suc (suc (suc (suc (suc (suc zero))))))) h = refl
shl_one_lem (suc (suc (suc (suc (suc (suc (suc (suc zero)))))))) h = refl
shl_one_lem (suc (suc (suc (suc (suc (suc (suc (suc (suc zero))))))))) h = refl
shl_one_lem (suc (suc (suc (suc (suc (suc (suc (suc (suc (suc zero)))))))))) h = refl
shl_one_lem (suc (suc (suc (suc (suc (suc (suc (suc (suc (suc (suc n))))))))))) h =
    absurd (omega arith)

saturated :
    (x : ℕ)
    → seconds (max_ℤ (min_ℤ (quot (saturate_i64 (pos x)) 1000) (pos 1800)) (pos 0))
      ≡ seconds (pos (min (x / 1000) 1800))
unfolding ◌*ℤ◌ quot saturate_i64
saturated x = ground arith

pos-* : (a b : ℕ) → pos a *ℤ pos b ≡ pos (a * b)
unfolding ◌*ℤ◌
pos-* a b = ground arith

min-pos : (n : ℕ) → min_ℤ (pos n) (pos 10) ≡ pos (min n 10)
min-pos n = ground arith

-- The exponential backoff, for an attempt count that is not negative and a base delay of less than
-- 2^63 milliseconds: base * 2^min(attempt_count, 10) milliseconds, in whole seconds, 1800 at most.
pub calculate_retry_delay_lem :
    (m : TaskMetadata) (n : ℕ)
    → m.retry_base_delay / 1000000 ≤ i64_max
    → calculate_retry_delay m (pos n)
      ≡ seconds (pos (min (m.retry_base_delay / 1000000 * 2 ^ min n 10 / 1000) 1800))
unfolding calculate_retry_delay millis_i64
calculate_retry_delay_lem m n h =
    rw
      (
        as_signed-pos _ h,
        min-pos n,
        as_unsigned-pos (min n 10) (omega arith),
        shl_one_lem (min n 10) (omega arith),
        pos-*,
      )
      (saturated _)

seconds_mono : (a b : ℕ) → a ≤ b → seconds (pos a) ≤ℤ seconds (pos b)
unfolding ◌*ℤ◌
seconds_mono a b h = ground arith

grown : (base x y : ℕ) → x ≤ y → min (base * x / 1000) 1800 ≤ min (base * y / 1000) 1800
grown base x y h = let le : base * x ≤ base * y = grind arith in omega arith

-- With the same bound on the base delay, a later attempt never waits for less time than an earlier
-- one.
pub calculate_retry_delay_mono :
    (m : TaskMetadata) (n k : ℕ)
    → m.retry_base_delay / 1000000 ≤ i64_max
    → n ≤ k
    → calculate_retry_delay m (pos n) ≤ℤ calculate_retry_delay m (pos k)
calculate_retry_delay_mono m n k h le =
    rw (calculate_retry_delay_lem m n h, calculate_retry_delay_lem m k h)
      (seconds_mono _ _ (
        grown (m.retry_base_delay / 1000000) (2 ^ min n 10) (2 ^ min k 10)
          (pow-le-pow_right (omega arith) (omega arith))))
