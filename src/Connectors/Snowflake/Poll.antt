-- ===== src/Connectors/Snowflake/Poll.antt =====
-- The loop of may_connectors/src/dwh/snowflake.rs that polls a statement, lines 330 to 388. A poll is
-- asked under its number, since the server may answer each otherwise. On `fuel` one round is one pass
-- of the loop; the delays that were slept are returned beside what the loop gives.

use Prim.Native.String.{String}
use maysemantic.Prelude.{
  false, true, subst, nat_eq, ◌*◌, ◌≤◌, ◌++◌, Bool-cases, ltb, ◌<◌, leb, length, arith, Option,
  if◌then◌else◌, Text, refl, ◌+◌, str, ℕ, List, ◌≡◌, some, none, [], ◌∷◌, zero, suc, inl, inr,
}
use maysemantic.Connectors.{
  query_failed, is_success, timeout, connection_failed, Answer, ConnectorError, Value, timed_out,
  failed, response,
}

abbrev pub max_retries : ℕ
max_retries = 10

abbrev pub max_delay : ℕ
max_delay = 30_000

-- `break` with the JSON, `yield Err` and `return`, or a loop that is still running
pub data Polled : Type 0 where
  finished : Value → Polled
  stopped : ConnectorError → Polled
  running : Polled

-- `(delay_ms * 2).min(30_000)`
unfoldable pub next_delay : ℕ → ℕ
next_delay delay_ms = if ltb max_delay (delay_ms * 2) then max_delay else delay_ms * 2

-- the error of a request that failed
unfoldable pub transport_error : String → Text → ConnectorError
unfolding str
transport_error message e = connection_failed (str message ++ e)

-- a poll that is no longer accepted: its JSON, or why there is none
poll_json : ℕ → Text → Option Value → Polled
poll_json status err_text json =
    if is_success status
    then elim json [
      | none ↦ stopped (query_failed (str "Failed to parse poll JSON: "))
      | some j ↦ finished j
    ]
    else stopped (query_failed (str "Polling request returned error: " ++ err_text))

unfoldable pub sleeping : ℕ → Polled × List ℕ → Polled × List ℕ
sleeping delay_ms (result, delays) = (result, delay_ms ∷ delays)

after_answer : Answer Value → Polled × List ℕ → Polled × List ℕ
unfolding poll_json
after_answer timed_out rest = (stopped timeout, [])
after_answer (failed e) rest = (stopped (transport_error "Polling failed: " e), [])
after_answer (response status err_text json) rest =
    if nat_eq status 202 then rest else (poll_json status err_text json, [])

module _ (poll : ℕ → Answer Value) where
  unfoldable pub poll_loop : ℕ → ℕ → ℕ → Polled × List ℕ
  unfolding after_answer sleeping poll_json str
  poll_loop zero retries delay_ms = (running, [])
  poll_loop (suc fuel) retries delay_ms =
      let rest = poll_loop fuel (retries + 1) (next_delay delay_ms) in
      if leb max_retries retries
      then (stopped timeout, [])
      else sleeping delay_ms (after_answer (poll retries) rest)

-- the sum of the delays
abbrev pub total : List ℕ → ℕ
total [] = 0
total (d ∷ ds) = d + total ds

-- the most that so many rounds can sleep
budget : ℕ → ℕ → ℕ
budget zero delay_ms = 0
budget (suc rounds) delay_ms = delay_ms + budget rounds (next_delay delay_ms)

-- a loop that has ended
abbrev pub IsDone : Polled → Type 0
IsDone running = ⊥
IsDone p = Unit

-- a loop that has ended after so many rounds, within their budget
abbrev Bounded : ℕ → ℕ → Polled × List ℕ → Type 0
Bounded rounds delay_ms (result, delays) =
    IsDone result × (length delays ≤ rounds) × (total delays ≤ budget rounds delay_ms)

poll_json-IsDone : (status : ℕ) (t : Text) (json : Option Value) → IsDone (poll_json status t json)
unfolding poll_json
poll_json-IsDone status t none = ground arith
poll_json-IsDone status t (some j) = ground arith

after_answer-Bounded :
    (rounds delay_ms : ℕ) (answer : Answer Value) (rest : Polled × List ℕ)
    → Bounded rounds delay_ms rest
    → Bounded rounds delay_ms (after_answer answer rest)
unfolding after_answer
after_answer-Bounded rounds delay_ms timed_out rest h = (tt, omega arith, omega arith)
after_answer-Bounded rounds delay_ms (failed e) rest h = (tt, omega arith, omega arith)
after_answer-Bounded rounds delay_ms (response status t json) rest h =
    elim (Bool-cases (nat_eq status 202)) [
      | inl e ↦ rw e h
      | inr e ↦ rw e (poll_json-IsDone status t json, omega arith, omega arith)
    ]

sleeping-Bounded :
    (rounds delay_ms : ℕ) (r : Polled × List ℕ)
    → Bounded rounds (next_delay delay_ms) r
    → Bounded (suc rounds) delay_ms (sleeping delay_ms r)
unfolding sleeping budget
sleeping-Bounded rounds delay_ms (result, delays) h = (h.0, omega arith, omega arith)

poll_loop-Bounded :
    (poll : ℕ → Answer Value) (fuel retries rounds delay_ms : ℕ)
    → retries + rounds ≡ max_retries
    → rounds < fuel
    → Bounded rounds delay_ms (poll_loop poll fuel retries delay_ms)
unfolding poll_loop
poll_loop-Bounded poll zero retries rounds delay_ms e lt = absurd (omega arith)
poll_loop-Bounded poll (suc fuel) retries zero delay_ms e lt =
    let last : leb max_retries retries ≡ true = ground arith in
    rw last (tt, omega arith, omega arith)
poll_loop-Bounded poll (suc fuel) retries (suc rounds) delay_ms e lt =
    let more : leb max_retries retries ≡ false = ground arith in
    let rest =
      poll_loop-Bounded poll fuel (retries + 1) rounds (next_delay delay_ms) (omega arith)
        (omega arith) in
    rw more (
      sleeping-Bounded rounds delay_ms
        (after_answer (poll retries) (poll_loop poll fuel (retries + 1) (next_delay delay_ms)))
        (after_answer-Bounded rounds (next_delay delay_ms) (poll retries)
          (poll_loop poll fuel (retries + 1) (next_delay delay_ms)) rest))

budget_default : budget max_retries 500 ≡ 151_500
unfolding budget next_delay
budget_default = refl

-- Polling comes to an end whatever the server answers: within eleven passes of the loop it has a result
-- or an error, after at most ten polls, and it has slept for at most 151.5 seconds in all.
pub poll_loop-IsDone :
    (poll : ℕ → Answer Value)
    → let (result, delays) = poll_loop poll 11 0 500 in
      IsDone result × (length delays ≤ max_retries) × (total delays ≤ 151_500)
poll_loop-IsDone poll =
    subst
      (λ b.
        let (result, delays) = poll_loop poll 11 0 500 in
        IsDone result × (length delays ≤ max_retries) × (total delays ≤ b))
      budget_default (poll_loop-Bounded poll 11 0 10 500 (omega arith) (omega arith))
