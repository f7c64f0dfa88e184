-- ===== src/Loading.antt =====
-- The loading indicator of ui/web/js/railviz/main.js: `setLoading` and `toggleLoadingSpinner`.
use motis.Prelude.{◌≡◌, Bool, true, false, not, Option, none, some, if◌then◌else◌, arith, ◌⊎◌}
use mathlib.Core.Option
use motis.Prelude.Int.{ℤ, pos, ◌+ℤ◌, ltb_ℤ}

-- `spinner` is whether the element is shown; `none` if the page has no such element.
pub record Loading : Type 0 where
  pub loading_count : ℤ
  pub spinner : Option Bool

unfoldable pub toggle_loading_spinner : Bool → Loading → Loading
toggle_loading_spinner visible l = record l { spinner = Option.map (λ _. visible) l.spinner }

abbrev pub is_loading : Loading → Bool
is_loading l = ltb_ℤ (pos 0) l.loading_count

abbrev bool_eq : Bool → Bool → Bool
bool_eq true b = b
bool_eq false b = not b

unfoldable pub set_loading : ℤ → Loading → Loading
unfolding toggle_loading_spinner
set_loading change l =
    let after = record l { loading_count = l.loading_count +ℤ change } in
    if bool_eq (is_loading l) (is_loading after)
    then after
    else toggle_loading_spinner (is_loading after) after

-- The spinner, if there is one, is shown exactly while something is being loaded.
abbrev pub SpinnerIsRight : Loading → Type 0
SpinnerIsRight l = (l.spinner ≡ none) ⊎ (l.spinner ≡ some (is_loading l))

pub set_loading-SpinnerIsRight :
    (change : ℤ) (l : Loading) → SpinnerIsRight l → SpinnerIsRight (set_loading change l)
unfolding set_loading
set_loading-SpinnerIsRight change l h = ground arith

pub loading_count-set_loading :
    (change : ℤ) (l : Loading) → (set_loading change l).loading_count ≡ l.loading_count +ℤ change
unfolding set_loading
loading_count-set_loading change l = ground arith
