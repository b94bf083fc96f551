-- ===== src/Ai/Delay.antt =====
-- `retryDelayMs` of `src/ai/ai-provider-composition.ts`. `random()` is `r / 2 ^ 53` with
-- `r < 2 ^ 53`; the products are taken exactly, where the code rounds them to a double.
use telegram_news_agent.Prelude.{
  ℕ, zero, suc, ◌+◌, ◌-◌, ◌*◌, ◌/◌, ◌^◌, ◌≤◌, ◌<◌, ◌≡◌, ◌⊎◌, inl, inr, arith, min, max,
}

abbrev pub retry_max_delay_ms : ℕ
retry_max_delay_ms = 2000

abbrev pub retry_base_delay_ms : ℕ
retry_base_delay_ms = 250

abbrev pub random_range : ℕ
random_range = 9007199254740992

pub base_delay_ms : ℕ → ℕ
base_delay_ms attempt = min retry_max_delay_ms (retry_base_delay_ms * 2 ^ (attempt - 1))

-- `jitterSpan = base * 3 / 10`, so `base - span + 2 * span * random()` is a fraction over
-- `10 * 2 ^ 53`; the floor of the maximum with 1 is the maximum of the floor with 1.
jittered : ℕ → ℕ → ℕ
jittered base r = max 1 ((base * 7 * random_range + base * 6 * r) / (10 * random_range))

unfoldable pub retry_delay_ms : ℕ → ℕ → ℕ
unfolding jittered base_delay_ms
retry_delay_ms attempt r = jittered (base_delay_ms attempt) r

pow-pos : (k : ℕ) → 1 ≤ 2 ^ k
pow-pos zero = omega arith
pow-pos (suc k) = omega (arith, pow-pos k)

abbrev IsBase : ℕ → Type 0
IsBase b = (b ≡ 250) ⊎ (b ≡ 500) ⊎ (b ≡ 1000) ⊎ (b ≡ 2000)

base_delay_ms-IsBase : (attempt : ℕ) → IsBase (base_delay_ms attempt)
unfolding base_delay_ms
base_delay_ms-IsBase zero = omega arith
base_delay_ms-IsBase (suc zero) = omega arith
base_delay_ms-IsBase (suc (suc zero)) = omega arith
base_delay_ms-IsBase (suc (suc (suc zero))) = omega arith
base_delay_ms-IsBase (suc (suc (suc (suc k)))) =
    let e : suc (suc (suc (suc k))) - 1 ≡ suc (suc (suc k)) = omega arith in
    rw e (omega (arith, pow-pos k))

jittered_bounds :
    (base r : ℕ)
    → IsBase base
    → r < random_range
    → (7 * base ≤ 10 * jittered base r) × (10 * jittered base r ≤ 13 * base)
unfolding jittered
jittered_bounds base r (inl e) h = rw e (omega arith)
jittered_bounds base r (inr (inl e)) h = rw e (omega arith)
jittered_bounds base r (inr (inr (inl e))) h = rw e (omega arith)
jittered_bounds base r (inr (inr (inr e))) h = rw e (omega arith)

-- The wait before a retry is within 30 percent of the base delay, for every value of `random`, and
-- so lies between 175 and 2600 milliseconds.
pub retry_delay_ms_bounds :
    (attempt r : ℕ)
    → r < random_range
    → (7 * base_delay_ms attempt ≤ 10 * retry_delay_ms attempt r)
      × (10 * retry_delay_ms attempt r ≤ 13 * base_delay_ms attempt)
      × (175 ≤ retry_delay_ms attempt r)
      × (retry_delay_ms attempt r ≤ 2600)
unfolding retry_delay_ms
retry_delay_ms_bounds attempt r h =
    let base = base_delay_ms-IsBase attempt in
    omega (arith, base, jittered_bounds (base_delay_ms attempt) r base h)
