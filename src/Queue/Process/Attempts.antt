-- ===== src/Queue/Process/Attempts.antt =====
-- internal/queue/worker.go: how long a message waits between two attempts.
use fidex_go_node.Common.{ℕ, ◌+◌, ◌*◌, ◌^◌, ◌≤◌, ◌<◌, ◌≡◌, pos, arith, refl, wrap_int64-small}
use fidex_go_node.Queue.Process.{backoff_minutes, next_attempt}

square_bound : (n : ℕ) → (8 ≤ n → 61 ≤ n * n) × (n ≤ 7 → n * n ≤ 60)
square_bound n = (λ h. grind arith, λ h. grind arith)

square_small : (n : ℕ) → n ≤ 3000000000 → n * n < 2 ^ 63
square_small n h = let most : n * n ≤ 3000000000 * n = grind arith in omega (arith, most, h)

small_backoff : (n : ℕ) → n ≤ 7 → backoff_minutes n ≡ pos (n * n)
unfolding backoff_minutes
small_backoff n h =
    let (_, least) = square_bound n in
    rw (wrap_int64-small (n * n) (omega (arith, least h))) (ground (arith, least))

large_backoff : (n : ℕ) → 8 ≤ n → n ≤ 3000000000 → backoff_minutes n ≡ pos 60
unfolding backoff_minutes
large_backoff n h small =
    let (most, _) = square_bound n in
    rw (wrap_int64-small (n * n) (square_small n small)) (ground (arith, most))

-- A message with `n` attempts behind it waits n² minutes where n is at most 7, and an hour where n
-- is from 8 to 3,000,000,000, above which the square of an int may wrap around: the next attempt
-- is that many nanoseconds after the present.
pub next_attempt_lem :
    (now n : ℕ)
    → (n ≤ 7 → next_attempt now n ≡ now + n * n * 60000000000)
      × (8 ≤ n → n ≤ 3000000000 → next_attempt now n ≡ now + 3600000000000)
unfolding next_attempt
next_attempt_lem now n = (
  λ h.
      let (_, least) = square_bound n in
      let short : n * n * 60000000000 < 2 ^ 63 = omega (arith, least h) in
      rw (small_backoff n h, wrap_int64-small (n * n * 60000000000) short) refl,
  λ h small. rw (large_backoff n h small, wrap_int64-small 3600000000000 (omega arith)) refl,
)
