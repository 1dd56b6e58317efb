-- ===== src/Core/Ids/Fresh.antt =====
-- ids.rs: generated ids are different.
use bigtop.Common.{
  ℕ, ◌+◌, ◌%◌, ◌^◌, ◌≤◌, ◌<◌, ◌≡◌, ◌≢◌, refl, ap, ◌∙◌, List, [], ◌∷◌, arith, All, length, String,
}
use bigtop.Common.Distinct.{Distinct}
use bigtop.Common.Hex.{hex, tail_value, tail_value-append, tail_value-hex}
use bigtop.Core.Ids.{Kind, prefix_of, fresh_id, generate}

-- The counter can be read off an id.
tail_value-fresh_id :
    (prefix : String) (nanos pid counter : ℕ)
    → counter < 2 ^ 64
    → tail_value 0 (fresh_id prefix nanos pid counter).0 ≡ counter
unfolding fresh_id
tail_value-fresh_id prefix nanos pid counter h =
    tail_value-append 0 prefix _
    ∙ tail_value-append _ "-" _
    ∙ tail_value-append _ (hex nanos) _
    ∙ tail_value-append _ "-" _
    ∙ tail_value-append _ (hex pid) _
    ∙ tail_value-hex _ counter h

-- The ids that successive calls in one process return, each with its kind and the time.
pub generated : ℕ → List (Kind × ℕ) → ℕ → List String
generated pid [] counter = []
generated pid ((kind, nanos) ∷ calls) counter =
    (generate kind nanos pid counter).0 ∷ generated pid calls (generate kind nanos pid counter).1

next_counter :
    (kind : Kind) (nanos pid counter : ℕ)
    → (generate kind nanos pid counter).1 ≡ (counter + 1) % 2 ^ 64
unfolding generate
next_counter kind nanos pid counter = refl

tail_value-generate :
    (kind : Kind) (nanos pid counter : ℕ)
    → counter < 2 ^ 64
    → tail_value 0 (generate kind nanos pid counter).0 ≡ counter
unfolding generate
tail_value-generate kind nanos pid counter h =
    tail_value-fresh_id (prefix_of kind) nanos pid counter h

-- The ids of later calls have other counters, until the counter has gone round.
generated-ne :
    (pid : ℕ) (calls : List (Kind × ℕ)) (id : String) (counter k now : ℕ)
    → counter < 2 ^ 64
    → tail_value 0 id ≡ counter
    → 1 ≤ k
    → k + length calls ≤ 2 ^ 64
    → now ≡ (counter + k) % 2 ^ 64
    → All (λ y. y ≢ id) (generated pid calls now)
unfolding generated
generated-ne pid [] id counter k now h e low high at_now = tt
generated-ne pid ((kind, nanos) ∷ calls) id counter k now h e low high at_now = (
  (λ same. absurd (
      omega
        (arith, e, ap (tail_value 0) same, tail_value-generate kind nanos pid now (omega arith)))),
  generated-ne pid calls id counter (k + 1) (generate kind nanos pid now).1 h e (omega arith)
      (omega arith) (next_counter kind nanos pid now ∙ omega arith),
)

-- Until `generate` has been called 2^64 times, a process never generates an id twice, whatever kinds
-- the ids are of, whatever the clock shows, and wherever the counter stands.
pub generated-Distinct :
    (pid : ℕ) (calls : List (Kind × ℕ)) (counter : ℕ)
    → counter < 2 ^ 64
    → length calls ≤ 2 ^ 64
    → Distinct (generated pid calls counter)
unfolding generated
generated-Distinct pid [] counter h n = tt
generated-Distinct pid ((kind, nanos) ∷ calls) counter h n = (
  generated-ne pid calls (generate kind nanos pid counter).0 counter 1
      (generate kind nanos pid counter).1 h (tail_value-generate kind nanos pid counter h)
      (omega arith) (omega arith) (next_counter kind nanos pid counter),
  generated-Distinct pid calls (generate kind nanos pid counter).1
      (rw (next_counter kind nanos pid counter) (omega arith)) (omega arith),
)
