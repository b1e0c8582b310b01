-- ===== src/Session/Examples/SqliteParts.antt =====
-- The SQLite store at the data of `Fixtures`, with JSON texts that are what they print.
use say_ur_intent.Prelude.{true, false, some, none, List, [], ◌∷◌, Option, lookup, ◌≡◌, refl}
use say_ur_intent.Session.Types.{ReviewState, ActionPlan, ExecutionResult}
use say_ur_intent.Session.Sqlite.{Codec, Row, row_of, get_live, update_live}
use say_ur_intent.Session.Sqlite.Represents.{ParsesBack}
use say_ur_intent.Session.Sqlite.Histories.{
  Command, run_live, run_memory, run_live-run_memory, update_live-once,
}
use say_ur_intent.Session.Fixtures.{ready_session, pending_session}

data SomeText : Type 0 where
  of_plans : List ActionPlan → SomeText
  of_state : ReviewState → SomeText
  of_result : ExecutionResult → SomeText

abbrev plans_in : SomeText → Option (List ActionPlan)
plans_in (of_plans p) = some p
plans_in _ = none

abbrev state_in : SomeText → Option ReviewState
state_in (of_state s) = some s
state_in _ = none

abbrev result_in : SomeText → Option ExecutionResult
result_in (of_result r) = some r
result_in _ = none

abbrev some_codec : Codec SomeText
some_codec = record {
  plans_text = of_plans;
  parse_plans = plans_in;
  state_text = of_state;
  parse_state = state_in;
  result_text = of_result;
  parse_result = result_in;
}

parses_back : ParsesBack some_codec
parses_back = (λ p. refl, λ s. refl, λ r. refl)

abbrev some_commands : List Command
some_commands =
    Command.create ready_session
    ∷ Command.create pending_session
    ∷ Command.acquire "session" "digest"
    ∷ Command.release "session" none
    ∷ Command.commit ready_session pending_session
    ∷ []

run_live-run_memory_example :
    ((run_live some_codec some_commands []).0 ≡ (run_memory some_commands []).0)
    × (get_live some_codec "session" (run_live some_codec some_commands []).1
        ≡ some (lookup "session" (run_memory some_commands []).1))
run_live-run_memory_example = run_live-run_memory some_codec parses_back some_commands "session"

abbrev first_row : List (Row SomeText)
first_row = row_of some_codec ready_session 0 ∷ []

abbrev second_row : List (Row SomeText)
second_row = row_of some_codec pending_session 1 ∷ []

updated : update_live some_codec 0 pending_session first_row ≡ (true, second_row)
unfolding update_live say_ur_intent.Session.Sqlite.update_row row_of
updated = refl

update_live-once_example : update_live some_codec 0 ready_session second_row ≡ (false, second_row)
update_live-once_example =
    update_live-once some_codec 0 pending_session ready_session first_row second_row refl updated
