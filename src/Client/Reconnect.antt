-- ===== src/Client/Reconnect.antt =====
-- Run of pkg/client/client.go: the attempts to connect and the delays between them, in seconds. The
-- counter is an int of Go; it is a number without bound here, which differs only after 2^62 attempts.
use single_proxy.Base.{
  ℕ, zero, suc, ◌+◌, ◌*◌, List, [], ◌∷◌, ltb, if◌then◌else◌, ◌≡◌, ap, ◌∙◌, arith,
}

-- Min of pkg/utils/http.go
unfoldable pub min : ℕ → ℕ → ℕ
min a b = if ltb a b then a else b

-- How an attempt goes: Connect fails, or the connection runs until it is lost.
pub data Attempt : Type 0 where
  fails runs : Attempt

-- One round of the loop: the seconds that it sleeps at its end, and the counter then. Connect counts
-- an attempt that succeeds, before Run resets the counter.
unfoldable pub attempt : Attempt → ℕ → ℕ × ℕ
unfolding min
attempt fails count = (5 + min ((count + 1) * 2) 55, count + 1)
attempt runs count = (3, (if ltb 0 (count + 1) then 0 else count + 1) + 1)

unfoldable pub delays : List Attempt → ℕ → List ℕ
delays [] count = []
delays (a ∷ attempts) count = (attempt a count).0 ∷ delays attempts (attempt a count).1

abbrev pub failures : ℕ → List Attempt → List Attempt
failures zero rest = rest
failures (suc n) rest = fails ∷ failures n rest

-- The delays of n failures, the first of them the one after `done` others: seven seconds at first,
-- two more each time, and sixty at most.
abbrev pub growing : ℕ → ℕ → List ℕ → List ℕ
growing zero done rest = rest
growing (suc n) done rest =
    (if ltb (7 + 2 * done) 60 then 7 + 2 * done else 60) ∷ growing n (done + 1) rest

same_count : (count : ℕ) → count ≡ count + 0
same_count count = omega arith

moved : (count n : ℕ) → count + 1 + n ≡ count + suc n
moved count n = omega arith

first_delay :
    (count : ℕ)
    → 5 + min ((count + 1) * 2) 55 ≡ (if ltb (7 + 2 * count) 60 then 7 + 2 * count else 60)
unfolding min
first_delay count = ground arith

reset : (count : ℕ) → (if ltb 0 (count + 1) then 0 else count + 1) ≡ 0
reset count = ground arith

module _ (rest : List Attempt) where
  delays-failures :
      (n count : ℕ) → delays (failures n rest) count ≡ growing n count (delays rest (count + n))
  unfolding delays attempt min
  delays-failures zero count = ap (delays rest) (same_count count)
  delays-failures (suc n) count =
      let later : delays (failures n rest) (count + 1)
          ≡ growing n (count + 1) (delays rest (count + suc n)) =
        delays-failures n (count + 1)
        ∙ ap (λ k. growing n (count + 1) (delays rest k)) (moved count n) in
      rw (first_delay count, later)

  -- After a connection that ran and was lost, whatever the counter before it, the client
  -- sleeps three seconds; n failures after it are followed by sleeps of nine seconds at first, two
  -- more each time, and sixty at most.
  pub delays-runs :
      (n count : ℕ) → delays (runs ∷ failures n rest) count ≡ 3 ∷ growing n 1 (delays rest (1 + n))
  unfolding delays attempt
  delays-runs n count = rw (reset count) (ap (◌∷◌ 3) (delays-failures n 1))
