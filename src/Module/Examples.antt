-- ===== src/Module/Examples.antt =====
-- Filters that count in a request which is a number, and the theorems at concrete inputs.
use bfe.Common.{ℕ, ◌≡◌, refl, ◌+◌, none, some, List, get_elem?, [], ◌∷◌}
use bfe.Module.{
  go_on, handler_response, Filter, request_filter, Callback, request_func, session_func,
  HandlerType, FilterList, filter_request, new_bfe_callbacks, point_types, get_handler_list,
}
use bfe.Module.Filters.{takes, AllTyped, add_all, Runs, filter_request-Runs}
use bfe.Module.Adds.{wanted, get-add_all-new}

abbrev count_on : Filter Unit ℕ ℕ
count_on = request_filter λ n. (n + 1, go_on, none)

abbrev answer : Filter Unit ℕ ℕ
answer = request_filter λ n. (n + 10, handler_response, some n)

-- A function at its point, one at a point of another type, one function at the two points that take
-- it, and one at no point.
abbrev adds : List (ℕ × Callback Unit ℕ ℕ)
adds =
    (3, request_func λ n. (n + 1, go_on, none))
    ∷ (0, request_func λ n. (n, go_on, none))
    ∷ (0, session_func λ s. (s, go_on))
    ∷ (8, session_func λ s. (s, go_on))
    ∷ (12, session_func λ s. (s, go_on))
    ∷ []

get-add_all-new_example :
    AllTyped point_types (add_all adds new_bfe_callbacks)
    × ((point : ℕ) (t : HandlerType)
        → get_elem? point_types point ≡ some t
        → get_handler_list point (add_all adds new_bfe_callbacks)
          ≡ some (record { handler_type = t; handlers = wanted t point adds }))
get-add_all-new_example = get-add_all-new adds

abbrev filters : FilterList Unit ℕ ℕ
filters = count_on ∷ answer ∷ count_on ∷ []

filter_request-Runs_example : Runs filters 5 none
unfolding takes
filter_request-Runs_example = filter_request-Runs filters 5 none (refl, (refl, (refl, tt)))

second_decides : filter_request filters 5 none ≡ (16, handler_response, some 6)
unfolding filter_request
second_decides = refl
