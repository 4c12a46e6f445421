-- ===== src/Tests/Linters.antt =====
-- The theorems on the linter, at concrete inputs.
use shar.Prelude.{Option, ap, ◌∙◌, ◌≡◌, ◌≢◌, refl, none, some, [], ◌∷◌, arith}
use shar.Prelude.Maps.{Map, lookup, insert}
use shar.Model.{Element}
use shar.Linter.{end_rule, Scan, done, spent, lint_instruction, coloured_traverse}
use shar.Linter.Terminates.{Ends, RulesEnd, coloured_traverse-Ends}
use shar.Linter.Links.{AllCaught, coloured_traverse-link, unmatched-throws}
use shar.Tests.Data.{task}

abbrev step : Element
step = record (task "step") {
  outbound = some (record {
    target = record { id = "f"; conditions = []; target = "end" } ∷ [];
    default_target = none;
  });
}

abbrev end_element : Element
end_element = record (task "end") { kind = "endEvent" }

abbrev index : Map Element
index = ("step", step) ∷ ("end", end_element) ∷ []

end_rule-ends : (e : Element) → end_rule e ≢ spent
end_rule-ends e h = absurd (ground (arith, h))

lint-RulesEnd : RulesEnd lint_instruction index
lint-RulesEnd = (
  λ rule e h g. end_rule-ends e (
      ap {A = Option (Element → Scan (Unit {0}))} (λ o. elim o [ none ↦ done tt | some r ↦ r e ]) h
      ∙ g),
  λ rule e t o h g. absurd (ground arith),
)

coloured_traverse-Ends_example :
    Ends lint_instruction index
      (coloured_traverse lint_instruction index 3 step (("step", step) ∷ []))
      (("step", step) ∷ [])
unfolding lookup
coloured_traverse-Ends_example =
    coloured_traverse-Ends lint_instruction index 3 step (("step", step) ∷ []) lint-RulesEnd
      (omega arith)

abbrev throwing : Element
throwing = record (task "throw") { kind = "intermediateLinkThrowEvent"; execute = "link" }

abbrev catching : Element
catching = record (task "catch") { kind = "intermediateLinkCatchEvent"; execute = "link" }

coloured_traverse-link_example :
    coloured_traverse lint_instruction
      (("throw", throwing) ∷ ("catch", catching) ∷ [])
      1
      throwing
      (("throw", step) ∷ [])
    ≡ done (("throw", step) ∷ [])
unfolding lookup
coloured_traverse-link_example =
    coloured_traverse-link (("throw", throwing) ∷ ("catch", catching) ∷ []) 0 throwing step
      (("throw", step) ∷ []) refl refl refl refl

unmatched-throws_example : AllCaught (throwing ∷ catching ∷ []) (throwing ∷ catching ∷ [])
unfolding lookup insert
unmatched-throws_example = unmatched-throws (throwing ∷ catching ∷ []) refl
