-- ===== src/Conflict/Clock.antt =====
-- internal/conflict/conflict.go: which side `clockWinner` takes to be newer.
use crm_bisync.Prelude.{ℕ, ◌+◌, ◌-◌, ◌≤◌, ◌<◌, ◌≡◌, none, some, if◌then◌else◌, leb, ltb, arith}
use crm_bisync.Prelude.Int.{pos}
use crm_bisync.Conflict.Terms.{
  State, Resolver, write_left, write_right, half, time_sub, neg_int64, gap, clock_winner,
}

abbrev pub distance : ℕ → ℕ → ℕ
distance t u = (t - u) + (u - t)

-- Below the bound of an int64 the gap is the distance.
pub gap_lem : (t u : ℕ) → distance t u < half → gap t u ≡ pos (distance t u)
unfolding gap time_sub neg_int64
gap_lem t u h = ground arith

-- For two modification times less than 2^63 nanoseconds apart there is no winner within the skew
-- tolerance, and otherwise the later side wins.
pub clock_winner_lem :
    (r : Resolver) (left right : State)
    → distance left.updated_at right.updated_at < half
    → clock_winner r left right ≡ (
        if leb (distance left.updated_at right.updated_at) r.skew
        then none
        else if ltb right.updated_at left.updated_at
        then some write_right
        else some write_left)
unfolding clock_winner
clock_winner_lem r left right h = rw (gap_lem left.updated_at right.updated_at h) (ground arith)

-- For a skew tolerance below 2^63 - 1 and two modification times 2^63 nanoseconds apart or more,
-- the later side wins if it is the left one and has no winner if it is the right one.
pub clock_winner_far :
    (r : Resolver) (early late : State)
    → r.skew < half - 1
    → early.updated_at + half ≤ late.updated_at
    → (clock_winner r early late ≡ none) × (clock_winner r late early ≡ some write_right)
unfolding clock_winner gap time_sub neg_int64
clock_winner_far r early late h e = (ground arith, ground arith)
