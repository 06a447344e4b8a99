-- ===== src/DeviceSync/Retry.antt =====
-- The delay between the attempts of a job.
use matreshka_panel.Base.{
  ℕ, zero, suc, ◌+◌, ◌*◌, ◌^◌, ◌-◌, min, max, ◌≤◌, ◌≡◌, ◌∙◌, refl, ap, Time, arith,
}
use matreshka_panel.DeviceSync.Jobs.{retry_seconds, next_retry}

pow-suc : (n : ℕ) → 2 ^ suc n ≡ 2 * 2 ^ n
pow-suc n = omega arith

retry_seconds-suc : (n : ℕ) → retry_seconds (suc n) ≡ min 300 (5 * 2 ^ n)
unfolding retry_seconds
retry_seconds-suc n =
    let same : max 0 (suc n - 1) ≡ n = omega arith in ap (λ k. min 300 (5 * 2 ^ k)) same

retry-doubles : (n : ℕ) → retry_seconds (suc (suc n)) ≡ min 300 (2 * retry_seconds (suc n))
retry-doubles n = rw (retry_seconds-suc n, retry_seconds-suc (suc n), pow-suc n) (omega arith)

retry-ge : (n : ℕ) → 5 ≤ retry_seconds (suc n)
unfolding retry_seconds
retry-ge zero = omega arith
retry-ge (suc n) = omega (arith, retry-ge n, retry-doubles n)

retry_seconds_seven : retry_seconds 7 ≡ 300
unfolding retry_seconds
retry_seconds_seven = refl

retry-max : (n : ℕ) → retry_seconds (7 + n) ≡ 300
retry-max zero = retry_seconds_seven
retry-max (suc n) =
    let earlier : retry_seconds (suc (6 + n)) ≡ 300 =
      let e : suc (6 + n) ≡ 7 + n = omega arith in ap retry_seconds e ∙ retry-max n in
    let e : 7 + suc n ≡ suc (suc (6 + n)) = omega arith in
    ap retry_seconds e ∙ omega (arith, earlier, retry-doubles (6 + n))

-- The delay is 5 seconds after the first failed attempt and doubles with each further one, up to 5
-- minutes: it never shrinks, is never under 5 seconds nor over 5 minutes, and stays at 5 minutes
-- from the seventh attempt on.
pub retry_grows :
    (n : ℕ) (now : Time)
    → (next_retry 1 now ≡ now + 5000)
      × (retry_seconds (suc (suc n)) ≡ min 300 (2 * retry_seconds (suc n)))
      × (now + 5000 ≤ next_retry (suc n) now)
      × (next_retry (suc n) now ≤ next_retry (suc (suc n)) now)
      × (next_retry (7 + n) now ≡ now + 300000)
unfolding next_retry
retry_grows n now = (
  omega (arith, retry_seconds-suc 0),
  retry-doubles n,
  omega (arith, retry-ge n),
  omega (arith, retry-doubles n, retry_seconds-suc n),
  omega (arith, retry-max n),
)
