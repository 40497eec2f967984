-- ===== src/ThreadPool/Sums.antt =====
-- How many workers stand at points of a kind.
use high_performance_http_se.Base.{
  All, ◌≢◌, ℕ, zero, suc, ◌+◌, ◌≡◌, refl, List, [], ◌∷◌, ◌++◌, length, arith,
}
use high_performance_http_se.ThreadPool.{Point, Worker, wake, wake_all, fresh_workers}

abbrev pub sum : (Point → ℕ) → List Worker → ℕ
sum f [] = 0
sum f (w ∷ ws) = f w.point + sum f ws

-- Inside a counted task.
abbrev pub counted : Point → ℕ
counted (Point.running _) = 1
counted _ = 0

-- With the mutex between its sections.
abbrev pub holds : Point → ℕ
holds Point.deciding = 1
holds _ = 0

-- On its way to the queue: it will look at it before it blocks.
abbrev pub up : Point → ℕ
up Point.deciding = 0
up Point.blocked = 0
up Point.exited = 0
up _ = 1

-- Blocked in the wait.
abbrev pub stuck : Point → ℕ
stuck Point.blocked = 1
stuck _ = 0

-- Behind the loop.
abbrev pub gone : Point → ℕ
gone Point.exited = 1
gone _ = 0

pub sum-append : (f : Point → ℕ) (ws vs : List Worker) → sum f (ws ++ vs) ≡ sum f ws + sum f vs
sum-append f [] vs = omega arith
sum-append f (w ∷ ws) vs = omega (arith, sum-append f ws vs)

-- One worker stands elsewhere.
pub sum-replaced :
    (f : Point → ℕ) (before behind : List Worker) (w v : Worker)
    → sum f (before ++ v ∷ behind) + f w.point ≡ sum f (before ++ w ∷ behind) + f v.point
sum-replaced f before behind w v =
    omega (arith, sum-append f before (v ∷ behind), sum-append f before (w ∷ behind))

-- Blocked or about to take the mutex count alike.
pub sum-wake_all :
    (f : Point → ℕ) (ws : List Worker)
    → f Point.locking ≡ f Point.blocked
    → sum f (wake_all ws) ≡ sum f ws
unfolding wake_all wake
sum-wake_all f [] e = refl
sum-wake_all f (w ∷ ws) e = omega (arith, woken w.point, sum-wake_all f ws e)
  where
    woken : (point : Point) → f (wake (record w { point = point })).point ≡ f point
    woken Point.head = refl
    woken Point.locking = refl
    woken Point.deciding = refl
    woken Point.blocked = e
    woken (Point.taken task) = refl
    woken (Point.running task) = refl
    woken Point.exited = refl

pub length-wake_all : (ws : List Worker) → length (wake_all ws) ≡ length ws
unfolding wake_all
length-wake_all [] = refl
length-wake_all (w ∷ ws) = omega (arith, length-wake_all ws)

-- New workers all stand at the head of the loop.
pub sum-fresh : (f : Point → ℕ) (n : ℕ) → f Point.head ≡ 0 → sum f (fresh_workers n) ≡ 0
unfolding fresh_workers
sum-fresh f zero e = refl
sum-fresh f (suc n) e = omega (arith, e, sum-fresh f n e)

pub All-middle :
    (P : Worker → Type 0) (before behind : List Worker) (w : Worker)
    → All P (before ++ w ∷ behind)
    → P w
All-middle P [] behind w all = all.0
All-middle P (v ∷ before) behind w all = All-middle P before behind w all.1

pub All-replaced :
    (P : Worker → Type 0) (before behind : List Worker) (w v : Worker)
    → P v
    → All P (before ++ w ∷ behind)
    → All P (before ++ v ∷ behind)
All-replaced P [] behind w v p all = (p, all.1)
All-replaced P (u ∷ before) behind w v p all = (all.0, All-replaced P before behind w v p all.1)

-- Every worker is up, or keeps the mutex, or is blocked, or gone.
pub sum-length :
    (ws : List Worker) → sum up ws + sum holds ws + sum stuck ws + sum gone ws ≡ length ws
sum-length [] = omega arith
sum-length (w ∷ ws) = omega (arith, one w.point, sum-length ws)
  where
    one : (x : Point) → up x + holds x + stuck x + gone x ≡ 1
    one Point.head = omega arith
    one Point.locking = omega arith
    one Point.deciding = omega arith
    one Point.blocked = omega arith
    one (Point.taken task) = omega arith
    one (Point.running task) = omega arith
    one Point.exited = omega arith

pub sum-stuck : (ws : List Worker) → All (λ w. w.point ≢ Point.blocked) ws → sum stuck ws ≡ 0
sum-stuck [] all = refl
sum-stuck (w ∷ ws) all = omega (arith, one w.point all.0, sum-stuck ws all.1)
  where
    one : (x : Point) → x ≢ Point.blocked → stuck x ≡ 0
    one Point.head h = refl
    one Point.locking h = refl
    one Point.deciding h = refl
    one Point.blocked h = absurd (h refl)
    one (Point.taken task) h = refl
    one (Point.running task) h = refl
    one Point.exited h = refl
