-- ===== src/Agent/Supervise/Batches.antt =====
-- lib.rs: `supervise` pushes every line once, in order.
use bigtop.Common.{
  ◌≤◌, ◌≡◌, refl, ap, subst, List, [], ◌∷◌, ◌++◌, String, length, leb, All, append_assoc, arith,
  Bool-cases, inl, inr, length-append,
}
use bigtop.Agent.Supervise.{Event, flush, supervise}

-- The lines of the events, up to the end of the channel.
unfoldable pub lines_of : List Event → List String
lines_of [] = []
lines_of (Event.line l ∷ events) = l ∷ lines_of events
lines_of (Event.tick ∷ events) = lines_of events
lines_of (Event.closed ∷ events) = []

abbrev pub joined : List (List String) → List String
joined [] = []
joined (batch ∷ batches) = batch ++ joined batches

-- The batches are all lines, each is pushed once, and none is empty or longer than 50.
pub record Pushed (lines : List String) (batches : List (List String)) : Type 0 where
  pub all_lines : joined batches ≡ lines
  pub sizes : All (λ batch. (1 ≤ length batch) × (length batch ≤ 50)) batches

flush-Pushed :
    (pending lines : List String) (batches : List (List String))
    → length pending ≤ 50
    → Pushed lines batches
    → Pushed (pending ++ lines) (flush pending batches)
unfolding flush
flush-Pushed [] lines batches h p = p
flush-Pushed (l ∷ pending) lines batches h p = record {
  all_lines = ap (λ x. (l ∷ pending) ++ x) p.all_lines;
  sizes = ((omega arith, h), p.sizes);
}

supervise-Pending :
    (events : List Event) (pending : List String)
    → length pending ≤ 49
    → Pushed (pending ++ lines_of events) (supervise (events ++ Event.closed ∷ []) pending)
unfolding supervise lines_of
supervise-Pending [] pending h =
    flush-Pushed pending [] [] (omega arith) (record { all_lines = refl; sizes = tt })
supervise-Pending (Event.closed ∷ events) pending h =
    flush-Pushed pending [] [] (omega arith) (record { all_lines = refl; sizes = tt })
supervise-Pending (Event.tick ∷ events) pending h =
    flush-Pushed pending (lines_of events) _ (omega arith)
      (supervise-Pending events [] (omega arith))
supervise-Pending (Event.line l ∷ events) pending h =
    let longer : length (pending ++ l ∷ []) ≤ 50 = omega (arith, length-append pending (l ∷ [])) in
    subst (λ lines. Pushed lines (supervise ((Event.line l ∷ events) ++ Event.closed ∷ []) pending))
      (append_assoc pending (l ∷ []) (lines_of events))
      (elim (Bool-cases (leb 50 (length (pending ++ l ∷ [])))) [
        | inl full ↦ rw full (
            flush-Pushed (pending ++ l ∷ []) (lines_of events) _ longer
              (supervise-Pending events [] (omega arith)))
        | inr short ↦
            rw short (supervise-Pending events (pending ++ l ∷ []) (ground (arith, longer)))
      ])

-- Until the channel closes, every line that arrives is pushed exactly once, in order, in batches
-- that are not empty and have at most 50 lines, wherever the flush ticks fall.
pub supervise-Pushed :
    (events : List Event) → Pushed (lines_of events) (supervise (events ++ Event.closed ∷ []) [])
supervise-Pushed events = supervise-Pending events [] (omega arith)
