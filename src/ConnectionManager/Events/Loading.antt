-- ===== src/ConnectionManager/Events/Loading.antt =====
-- Every call that the manager of ui/web/js/railviz/connectionmgr.js makes is counted by the loading
-- indicator until it ends.
use motis.Prelude.{ℕ, ◌≡◌, true, List, some, length}
use motis.Prelude.Int.{pos}
use motis.Loading.{Loading, SpinnerIsRight}
use motis.External.{External}
use motis.ConnectionManager.Walks.{WalkEntry}
use motis.ConnectionManager.State.{Manager, Call, received, end_call}
use motis.ConnectionManager.Events.{Answer}

pub record Counted (pending : List Call) (loading : Loading) : Type 0 where
  pub count : loading.loading_count ≡ pos (length pending)
  pub spinner : SpinnerIsRight loading

-- The indicator counts the calls that are under way, and the spinner shows whether there are any.
abbrev pub IsCounted : Manager → Type 0
IsCounted m = Counted m.pending m.loading

abbrev received_by : External → Answer → ℕ → Manager → Manager
received_by ext answer id m = record (end_call id m) { trip_data = some (received answer.trips) }

abbrev set_error : WalkEntry → WalkEntry
set_error w = record w { error = true }
