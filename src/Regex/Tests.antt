-- ===== src/Regex/Tests.antt =====
-- Runs of the expressions on small texts.
use avorelo.Common.{is_space, true, false, ◌≡◌, refl, [], ◌∷◌}
use avorelo.Regex.{
  Regex, edge, begins, ends, test, plus, optional, space, literal, any_case, sequence,
}

-- `/\brm\s+-rf\b/`
abbrev remove_all : Regex
unfolding sequence plus literal
remove_all = sequence (edge ∷ literal "rm" ∷ plus space ∷ literal "-rf" ∷ edge ∷ [])

finds_command : test remove_all "sudo rm   -rf /" ≡ true
unfolding test sequence plus literal is_space
finds_command = refl

needs_edge : test remove_all "farm -rf" ≡ false
unfolding test sequence plus literal is_space
needs_edge = refl

-- `/^(the\s+)?ux$/i`
abbrev whole : Regex
unfolding sequence plus any_case optional
whole =
    sequence
      (begins ∷ optional (sequence (any_case "the" ∷ plus space ∷ [])) ∷ any_case "ux" ∷ ends ∷ [])

ignores_case : test whole "The UX" ≡ true
unfolding test sequence plus any_case optional is_space
ignores_case = refl

anchors : test whole "the ux!" ≡ false
unfolding test sequence plus any_case optional is_space
anchors = refl
