-- ===== src/Runtime/Expression/Samples.antt =====
-- A configuration with a template, and the theorem of `ResolveConfig` there.
use tailflow_agent.Prelude.{◌≡◌, ◌↔◌, refl, none, some, if◌then◌else◌, ◌==◌}
use tailflow_agent.Value.{Value, Fields}
use tailflow_agent.Runtime.Expression.{Evaluator, Pieces, pure_group, resolve_config}
use tailflow_agent.Runtime.Expression.Resolved.{ArePlainFields, resolve_config_correct}
use tailflow_agent.Runtime.Expression.Relation.{FieldsResolve}

abbrev evaluator : Evaluator
evaluator = record {
  run = λ s. if s == "params.user" then some (Value.text "ann") else none;
  pieces = λ s. Pieces.done;
}

abbrev config : Fields
config =
    Fields.field "to" (Value.text "{{ params.user }}")
      (Fields.field "body" (Value.text "hello") Fields.end)

resolved :
    resolve_config evaluator config
    ≡ some
        (Fields.field "to" (Value.text "ann") (Fields.field "body" (Value.text "hello") Fields.end))
unfolding resolve_config pure_group
resolved = refl

-- A text of two templates counts as one, whose expression is all that stands between them.
two_templates : pure_group "{{ a }} * {{ b }}" ≡ some "a }} * {{ b"
unfolding pure_group
two_templates = refl

resolve_config_correct_example :
    (ArePlainFields config → resolve_config evaluator config ≡ some config)
    × ((gs : Fields)
        → (resolve_config evaluator config ≡ some gs) ↔ FieldsResolve evaluator config gs)
resolve_config_correct_example = resolve_config_correct evaluator config
