-- ===== src/Cache/Tests.antt =====
-- The cache at concrete inputs.
use temp_task.Prelude.{◌≡◌, refl, none, some, List, [], ◌∷◌, arith, pos, ◌+ℤ◌, ◌*ℤ◌, str}
use temp_task.Cache.{get}
use temp_task.Cache.Model.{
  Operation, gets, sets, invalidates, invalidates_prefix, perform_all, answer, get-eq-answer,
}

abbrev history : List Operation
history =
    gets (str "b") (pos 7)
    ∷ invalidates (str "c")
    ∷ sets (str "b") (str "2") (pos 60) (pos 6)
    ∷ invalidates_prefix (str "a")
    ∷ sets (str "a1") (str "1") (pos 60) (pos 5)
    ∷ []

answers_test :
    (answer (str "b") (pos 8) history ≡ some (str "2"))
    × (answer (str "b") (pos 60000000007) history ≡ none)
    × (answer (str "a1") (pos 8) history ≡ none)
unfolding ◌+ℤ◌ ◌*ℤ◌
answers_test = (refl, refl, refl)

get-eq-answer_example : (get (str "b") (pos 8) (perform_all history)).1 ≡ some (str "2")
unfolding ◌+ℤ◌ ◌*ℤ◌
get-eq-answer_example = get-eq-answer (str "b") (pos 8) history (omega arith)
