-- ===== src/Engine/TestCase/Samples.antt =====
-- An expectation that asks for one field of two, and the theorem of the match there.
use tailflow_agent.Prelude.{◌≡◌, ◌↔◌, refl, true, false}
use tailflow_agent.Value.{Value, Fields}
use tailflow_agent.Value.Print.{print_value}
use tailflow_agent.Engine.TestCase.{partial_match}
use tailflow_agent.Engine.TestCase.Matching.{Matches, partial_match_iff}

abbrev expected : Value
expected = Value.object (Fields.field "a" (Value.number "1") Fields.end)

abbrev actual : Value
actual = Value.object (Fields.field "b" Value.null (Fields.field "a" (Value.text "1") Fields.end))

-- A number matches the string that prints the same; the other way round a field is missing.
partial_match-actual : partial_match expected actual ≡ true
unfolding partial_match print_value
partial_match-actual = refl

partial_match-expected : partial_match actual expected ≡ false
unfolding partial_match print_value
partial_match-expected = refl

print-actual : print_value actual ≡ "map[a:1 b:<nil>]"
unfolding print_value
print-actual = refl

partial_match_iff_example : (partial_match expected actual ≡ true) ↔ Matches expected actual
partial_match_iff_example = partial_match_iff expected actual
