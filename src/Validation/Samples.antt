-- ===== src/Validation/Samples.antt =====
-- An agent with three subagents, of which one has no profile.
use deepagent_shell.Prelude.{String, [], ◌∷◌, Dict, ◌≡◌, refl, lookup, strip}
use deepagent_shell.Validation.Subagents.{
  subagent_name_duplicate, subagent_reference_duplicate, subagent_reference_issues,
  reference_issues, check_reference, routing_names, subagent_reference_issues-Distinct,
}

abbrev profiles : Dict String String
profiles = ("a", "Planner") ∷ ("b", " Writer ") ∷ ("d", "Planner  ") ∷ []

abbrev same_text : String → String
same_text text = text

subagent_reference_issues_conflicts :
    subagent_reference_issues same_text profiles ("a" ∷ "b" ∷ "d" ∷ "b" ∷ [])
    ≡ record { code = subagent_name_duplicate; index = 2 }
      ∷ record { code = subagent_reference_duplicate; index = 3 }
      ∷ []
unfolding subagent_reference_issues reference_issues check_reference lookup strip
subagent_reference_issues_conflicts = refl

subagent_reference_issues-Distinct_example :
    subagent_reference_issues same_text profiles ("a" ∷ "c" ∷ "b" ∷ []) ≡ []
unfolding subagent_reference_issues reference_issues check_reference routing_names lookup strip
subagent_reference_issues-Distinct_example =
    (subagent_reference_issues-Distinct same_text profiles ("a" ∷ "c" ∷ "b" ∷ [])).1
      ((refl, (refl, (refl, tt))), (refl, (refl, tt)))
