-- ===== src/Database/History.antt =====
-- What the pings so far say of the health of the database.
use go_notification.Prelude.{
  ℕ, suc, ◌%◌, ◌≤◌, ◌<◌, ◌≡◌, refl, Bool, true, false, not, ◌&&◌, ◌||◌, List, [], ◌∷◌, pos, ◌+ℤ◌,
  wrap32, arith, leb, if◌then◌else◌,
}
use go_notification.Errs.{Result, ok, err}
use go_notification.Database.Monitor.{Heartbeat, health, health_one_loop, health_check}

abbrev pub Pings : Type 0
Pings = List (Result (Unit {0}))

abbrev pub succeeded : Result (Unit {0}) → Bool
succeeded (ok _) = true
succeeded (err _) = false

-- the latest three pings failed, or succeeded
abbrev pub three_failures : Pings → Bool
three_failures (p ∷ q ∷ r ∷ _) = not (succeeded p || succeeded q || succeeded r)
three_failures _ = false

abbrev pub three_successes : Pings → Bool
three_successes (p ∷ q ∷ r ∷ _) = succeeded p && succeeded q && succeeded r
three_successes _ = false

-- The latest three pings in a row that agree decide, and a database is healthy at first.
unfoldable pub verdict : Pings → Bool
verdict [] = true
verdict (ping ∷ earlier) =
    let before = verdict earlier in
    if three_failures (ping ∷ earlier)
    then false
    else if three_successes (ping ∷ earlier)
    then true
    else before

-- how many pings failed, or succeeded, since the last of the other kind
abbrev failures : Pings → ℕ
failures [] = 0
failures (err _ ∷ earlier) = suc (failures earlier)
failures (ok _ ∷ earlier) = 0

abbrev successes : Pings → ℕ
successes [] = 0
successes (ok _ ∷ earlier) = suc (successes earlier)
successes (err _ ∷ earlier) = 0

three_failures-failures : (ps : Pings) → three_failures ps ≡ leb 3 (failures ps)
three_failures-failures [] = refl
three_failures-failures (ok _ ∷ []) = refl
three_failures-failures (err _ ∷ []) = refl
three_failures-failures (ok _ ∷ q ∷ []) = refl
three_failures-failures (err _ ∷ ok _ ∷ []) = refl
three_failures-failures (err _ ∷ err _ ∷ []) = refl
three_failures-failures (ok _ ∷ q ∷ r ∷ ps) = refl
three_failures-failures (err _ ∷ ok _ ∷ r ∷ ps) = refl
three_failures-failures (err _ ∷ err _ ∷ ok _ ∷ ps) = refl
three_failures-failures (err _ ∷ err _ ∷ err _ ∷ ps) = ground arith

three_successes-successes : (ps : Pings) → three_successes ps ≡ leb 3 (successes ps)
three_successes-successes [] = refl
three_successes-successes (err _ ∷ []) = refl
three_successes-successes (ok _ ∷ []) = refl
three_successes-successes (err _ ∷ q ∷ []) = refl
three_successes-successes (ok _ ∷ err _ ∷ []) = refl
three_successes-successes (ok _ ∷ ok _ ∷ []) = refl
three_successes-successes (err _ ∷ q ∷ r ∷ ps) = refl
three_successes-successes (ok _ ∷ err _ ∷ r ∷ ps) = refl
three_successes-successes (ok _ ∷ ok _ ∷ err _ ∷ ps) = refl
three_successes-successes (ok _ ∷ ok _ ∷ ok _ ∷ ps) = ground arith

-- the verdict by the lengths of the runs
verdict-failed :
    (e : _) (ps : Pings)
    → verdict (err e ∷ ps) ≡ (if leb 3 (suc (failures ps)) then false else verdict ps)
unfolding verdict
verdict-failed e ps =
    rw (three_failures-failures (err e ∷ ps), three_successes-successes (err e ∷ ps)) refl

-- the counters are the runs, from which three are taken whenever they are reached
record IsCounted (ps : Pings) (h : Heartbeat) : Type 0 where
  failing : h.fail_counter ≡ pos (failures ps % 3)
  succeeding : h.success_counter ≡ pos (successes ps % 3)
  decided : h.is_healthy ≡ verdict ps
  ill : 3 ≤ failures ps → verdict ps ≡ false
  well : 3 ≤ successes ps → verdict ps ≡ true

wrap32-suc : (k : ℕ) → k < 3 → wrap32 (pos k +ℤ pos 1) ≡ pos (suc k)
unfolding wrap32 ◌+ℤ◌
wrap32-suc k h = ground arith

failed-IsCounted :
    (e : _) (ps : Pings) (h : Heartbeat)
    → IsCounted ps h
    → IsCounted (err e ∷ ps) (health_one_loop (err e) h).1
unfolding health_one_loop
failed-IsCounted e ps h c =
    rw (c.failing, wrap32-suc (failures ps % 3) (omega arith))
      (ground (arith, c.decided, c.ill, verdict-failed e ps))

verdict-succeeded :
    (u : Unit {0}) (ps : Pings)
    → verdict (ok u ∷ ps) ≡ (if leb 3 (suc (successes ps)) then true else verdict ps)
unfolding verdict
verdict-succeeded u ps =
    rw (three_failures-failures (ok u ∷ ps), three_successes-successes (ok u ∷ ps)) refl

succeeded-IsCounted :
    (u : Unit {0}) (ps : Pings) (h : Heartbeat)
    → IsCounted ps h
    → IsCounted (ok u ∷ ps) (health_one_loop (ok u) h).1
unfolding health_one_loop
succeeded-IsCounted u ps h c =
    rw (c.succeeding, wrap32-suc (successes ps % 3) (omega arith))
      (ground (arith, c.decided, c.well, verdict-succeeded u ps))

health_check-IsCounted : (ps : Pings) → IsCounted ps (health_check ps)
unfolding health_check verdict
health_check-IsCounted [] = ground arith
health_check-IsCounted (err e ∷ ps) =
    failed-IsCounted e ps (health_check ps) (health_check-IsCounted ps)
health_check-IsCounted (ok u ∷ ps) =
    succeeded-IsCounted u ps (health_check ps) (health_check-IsCounted ps)

-- After any pings the monitor reports what the latest three pings in a row that agree say: it turns
-- ill after three failures, well after three successes, and stays as it was otherwise.
pub health-health_check : (ps : Pings) → health (health_check ps) ≡ verdict ps
health-health_check ps = (health_check-IsCounted ps).decided
