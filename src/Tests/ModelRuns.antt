-- ===== src/Tests/ModelRuns.antt =====
-- Runs of ui/web/js/railviz/model.js.
use mathlib.Core.List.{Perm}
use motis.Prelude.{
  ◌-◌, ◌≡◌, refl, Bool, false, List, [], ◌∷◌, none, some, All, get_elem?, keep, arith, inl,
}
use motis.Prelude.Int.{pos}
use motis.Prelude.Maths.{sqrt}
use motis.Model.Geometry.{measure_polyline, measure_lines, line_length, preprocess_polyline}
use motis.Model.Geometry.Measure.{IsMeasured, preprocess_polyline-IsMeasured}
use motis.Model.Train.{Train, PolylineRef}
use motis.Model.Position.{at, position, update_position, line_has}
use motis.Model.Position.Coverage.{IsOn}
use motis.Model.Position.Update.{IsRunning, IsHidden}
use motis.Model.Position.Run.{IsOutside, run_updates, run_updates-IsOn}
use motis.Model.Position.Backwards.{update_position-back}
use motis.Model.Preprocess.{has_polylines}
use motis.Model.Preprocess.Order.{all_trains, ClassesDescend, preprocess-ClassesDescend}
use motis.Model.Preprocess.Trains.{DrawableIfPoints, preprocess-IsDrawable}
use motis.Model.Walks.{doubles_to_lng_lats}
use motis.Model.Walks.Repeats.{NoRepeat, Repeats, points, doubles_to_lng_lats-Repeats}
use motis.Tests.Data.{
  from_lng_lat, decode, line_a, train, train-IsLaidOut, moved_train, moved_train-IsLaidOut,
  moved_train-IsOn, response, content, content-preprocess,
}

preprocess_polyline-IsMeasured_example : IsMeasured line_a
unfolding preprocess_polyline measure_polyline measure_lines line_length sqrt
preprocess_polyline-IsMeasured_example =
    preprocess_polyline-IsMeasured decode from_lng_lat "text" refl

-- The train runs, and then has arrived.
run_updates-IsOn_example :
    (t' : Train) × (run_updates (2 ∷ 9 ∷ 16 ∷ 20 ∷ []) train ≡ some t')
    × (t'.info ≡ train.info)
    × (IsRunning 20 t' → IsOn (position 20 t') t')
    × (IsOutside 20 t' → IsHidden t')
run_updates-IsOn_example =
    run_updates-IsOn 0 2 (9 ∷ 16 ∷ 20 ∷ []) train train-IsLaidOut (omega arith) (inl (refl, refl))
      (omega arith, (omega arith, (omega arith, tt)))

update_position-back_example :
    (r : Train × Bool) × (p : PolylineRef) × (update_position 2 moved_train ≡ some r)
    × (r.0.curr_polyline ≡ some 1)
    × (get_elem? moved_train.polylines 1 ≡ some p)
    × (r.0.curr_line ≡ some (p.polyline.line_count - 1))
    × (line_has (position 2 moved_train) p (p.polyline.line_count - 1) ≡ false)
unfolding moved_train-IsOn
update_position-back_example =
    update_position-back moved_train moved_train-IsLaidOut 2
      (record { departed = omega arith; arrives = omega arith; takes_time = omega arith })
      (at 160 16) moved_train-IsOn (omega arith)

doubles_to_lng_lats-Repeats_example :
    let src = pos 1 ∷ pos 2 ∷ pos 1 ∷ pos 2 ∷ pos 3 ∷ pos 4 ∷ [] in
    NoRepeat none (doubles_to_lng_lats src) × Repeats none (points src) (doubles_to_lng_lats src)
doubles_to_lng_lats-Repeats_example =
    doubles_to_lng_lats-Repeats (pos 1 ∷ pos 2 ∷ pos 1 ∷ pos 2 ∷ pos 3 ∷ pos 4 ∷ [])

preprocess-ClassesDescend_example :
    (trains : List Train) × (all_trains decode from_lng_lat response ≡ some trains)
    × Perm content.trains (keep has_polylines trains)
    × ClassesDescend content.trains
preprocess-ClassesDescend_example =
    preprocess-ClassesDescend decode from_lng_lat response content content-preprocess

preprocess-IsDrawable_example : All DrawableIfPoints content.trains
unfolding preprocess_polyline measure_polyline
preprocess-IsDrawable_example =
    preprocess-IsDrawable decode from_lng_lat response content-preprocess
      (omega arith, (omega arith, tt))
