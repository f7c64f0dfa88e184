-- ===== src/Detail/Styles/Least.antt =====
-- The class by which ui/web/js/railviz/path_detail.js colours a polyline that several trains use.
use motis.Prelude.{
  ℕ, zero, suc, min, ◌≤◌, ◌<◌, ◌≡◌, refl, ap, sym, subst, Bool, true, ◌||◌, List, [], ◌∷◌, Option,
  none, some, get_elem?, arith, if◌then◌else◌, ◌==◌, inl, inr, ◌⊎◌, All,
}
use motis.Model.Train.{TripId, Train, PolylineRef, or_zero}
use motis.ConnectionManager.State.{ConnectionTrain}
use motis.ConnectionManager.Trips.{update_at}
use motis.Detail.Styles.{Style, or_other, add_style, is_highlighted, style_polylines, style_trains}

-- A style that can follow another one: the class has not risen, and a highlight is not lost.
abbrev Follows : Style → Style → Type 0
Follows s s' = (or_other s'.clasz ≤ or_other s.clasz) × (s.highlight ≡ true → s'.highlight ≡ true)

-- A style that shows a train of this class.
abbrev pub Shows : ℕ → Bool → Style → Type 0
Shows clasz highlight s = (or_other s.clasz ≤ clasz) × (highlight ≡ true → s.highlight ≡ true)

Shows-Follows :
    (clasz : ℕ) (highlight : Bool) (s s' : Style)
    → Shows clasz highlight s
    → Follows s s'
    → Shows clasz highlight s'
Shows-Follows clasz highlight s s' h f = (omega (arith, h.0, f.0), λ e. f.1 (h.1 e))

or_other-pos : (o : Option ℕ) → 0 < or_other o
unfolding or_other
or_other-pos none = omega arith
or_other-pos (some n) = ground arith

least : (a c : ℕ) → 0 < a → 0 < c → (if min a c == 0 then 12 else min a c) ≤ min a c
least a c h k = ground arith

or-true : (a b : Bool) → (a ≡ true → (a || b) ≡ true) × (b ≡ true → (a || b) ≡ true)
or-true a b = ground arith

add_style-Follows :
    (clasz : ℕ) (highlight : Bool) (s : Style)
    → 0 < clasz
    → Follows s (add_style clasz highlight s) × Shows clasz highlight (add_style clasz highlight s)
unfolding add_style or_other
add_style-Follows clasz highlight s pos =
    let old = or_other s.clasz in
    let le = least old clasz (or_other-pos s.clasz) pos in
    let (kept, shown) = or-true s.highlight highlight in
    ((omega (arith, le), kept), (omega (arith, le), shown))

-- A list of styles, place by place.
abbrev AllFollow : List Style → List Style → Type 0
AllFollow ss ts =
    (i : ℕ) (s : Style)
    → get_elem? ss i ≡ some s
    → (t : Style) × (get_elem? ts i ≡ some t) × Follows s t

some-head {ℓ} : {A : Type ℓ} (x : A) {a : A} → some x ≡ some a → x ≡ a
some-head x h = cc

get_elem?-update_at_self {ℓ} :
    {A : Type ℓ} (xs : List A) (i : ℕ) (f : A → A) {a : A}
    → get_elem? xs i ≡ some a
    → get_elem? (update_at i f xs) i ≡ some (f a)
get_elem?-update_at_self [] i f h = cc
get_elem?-update_at_self (x ∷ xs) zero f h = ap (λ y. some (f y)) (some-head x h)
get_elem?-update_at_self (x ∷ xs) (suc i) f h = get_elem?-update_at_self xs i f h

update_at-AllFollow :
    (i : ℕ) (f : Style → Style) (ss : List Style)
    → ((s : Style) → Follows s (f s))
    → AllFollow ss (update_at i f ss)
update_at-AllFollow i f [] step j s h = cc
update_at-AllFollow zero f (x ∷ ss) step zero s h =
    (f x, refl, subst (λ y. Follows y (f x)) (some-head x h) (step x))
update_at-AllFollow zero f (x ∷ ss) step (suc j) s h = (s, h, (omega arith, λ e. e))
update_at-AllFollow (suc i) f (x ∷ ss) step zero s h = (s, h, (omega arith, λ e. e))
update_at-AllFollow (suc i) f (x ∷ ss) step (suc j) s h = update_at-AllFollow i f ss step j s h

AllFollow-refl : (ss : List Style) → AllFollow ss ss
AllFollow-refl ss i s h = (s, h, (omega arith, λ e. e))

AllFollow-trans : (ss ts us : List Style) → AllFollow ss ts → AllFollow ts us → AllFollow ss us
AllFollow-trans ss ts us f g i s h =
    let (t, e, p) = f i s h in
    let (u, e', q) = g i t e in (u, e', (omega (arith, p.0, q.0), λ k. q.1 (p.1 k)))

-- The train has the polyline.
abbrev pub Uses : ℕ → List PolylineRef → Type 0
Uses i [] = ⊥
Uses i (p ∷ ps) = (p.index ≡ i) ⊎ Uses i ps

module _ (clasz : ℕ) (highlight : Bool) (pos : 0 < clasz) where
  style_polylines-AllFollow :
      (ps : List PolylineRef) (ss : List Style)
      → AllFollow ss (style_polylines clasz highlight ps ss)
  unfolding style_polylines
  style_polylines-AllFollow [] ss = AllFollow-refl ss
  style_polylines-AllFollow (p ∷ ps) ss =
      let first = update_at p.index (add_style clasz highlight) ss in
      AllFollow-trans ss first (style_polylines clasz highlight ps first)
        (update_at-AllFollow p.index (add_style clasz highlight) ss
          (λ s. (add_style-Follows clasz highlight s pos).0))
        (style_polylines-AllFollow ps first)

  style_polylines-Shows :
      (i : ℕ) (ps : List PolylineRef) (ss : List Style) {s : Style}
      → Uses i ps
      → get_elem? ss i ≡ some s
      → (t : Style) × (get_elem? (style_polylines clasz highlight ps ss) i ≡ some t)
        × Shows clasz highlight t
  unfolding style_polylines
  style_polylines-Shows i [] ss u h = absurd u
  style_polylines-Shows i (p ∷ ps) ss {s} (inl e) h =
      let first = update_at p.index (add_style clasz highlight) ss in
      let now = get_elem?-update_at_self ss i (add_style clasz highlight) h in
      let now' =
        subst
          (λ j.
            get_elem? (update_at j (add_style clasz highlight) ss) i
            ≡ some (add_style clasz highlight s))
          (sym e) now in
      let (t, f, follows) =
        style_polylines-AllFollow ps first i (add_style clasz highlight s) now' in
      (
        t,
        f,
        Shows-Follows clasz highlight (add_style clasz highlight s) t
            (add_style-Follows clasz highlight s pos).1 follows,
      )
  style_polylines-Shows i (p ∷ ps) ss {s} (inr u) h =
      let first = update_at p.index (add_style clasz highlight) ss in
      let (t, f, _) =
        update_at-AllFollow p.index (add_style clasz highlight) ss
          (λ s. (add_style-Follows clasz highlight s pos).0) i s h in
      style_polylines-Shows i ps first {s = t} u f

abbrev pub HasClass : Train → Type 0
HasClass t = 0 < or_zero t.clasz

module _ (deep_equal : TripId → TripId → Bool) (filter_trains : List ConnectionTrain) where
  style_trains-AllFollow :
      (ts : List Train) (ss : List Style)
      → All HasClass ts
      → AllFollow ss (style_trains deep_equal filter_trains ts ss).styles
  unfolding style_trains
  style_trains-AllFollow [] ss c = AllFollow-refl ss
  style_trains-AllFollow (t ∷ ts) ss c =
      let first =
        style_polylines (or_zero t.clasz) (is_highlighted deep_equal filter_trains t) t.polylines
          ss in
      AllFollow-trans ss first (style_trains deep_equal filter_trains ts first).styles
        (style_polylines-AllFollow (or_zero t.clasz) (is_highlighted deep_equal filter_trains t) c.0
          t.polylines ss)
        (style_trains-AllFollow ts first c.1)

  -- If no train has class 0, the polyline of a train ends up with a class that is not above the
  -- train's, for each of the trains, and it is highlighted if one of its trains is.
  pub style_trains-Shows :
      (i k : ℕ) (ts : List Train) (ss : List Style) {s : Style} {t : Train}
      → All HasClass ts
      → get_elem? ts k ≡ some t
      → Uses i t.polylines
      → get_elem? ss i ≡ some s
      → (s' : Style) × (get_elem? (style_trains deep_equal filter_trains ts ss).styles i ≡ some s')
        × Shows (or_zero t.clasz) (is_highlighted deep_equal filter_trains t) s'
  unfolding style_trains
  style_trains-Shows i k [] ss c e u h = cc
  style_trains-Shows i zero (x ∷ ts) ss {s} {t} c e u h =
      let same = some-head x e in
      let u' = subst (λ y. Uses i y.polylines) (sym same) u in
      let highlight = is_highlighted deep_equal filter_trains x in
      let first = style_polylines (or_zero x.clasz) highlight x.polylines ss in
      let (r, f, shows) =
        style_polylines-Shows (or_zero x.clasz) highlight c.0 i x.polylines ss u' h in
      let (s', g, follows) = style_trains-AllFollow ts first c.1 i r f in
      (
        s',
        g,
        subst (λ y. Shows (or_zero y.clasz) (is_highlighted deep_equal filter_trains y) s') same
            (Shows-Follows (or_zero x.clasz) highlight r s' shows follows),
      )
  style_trains-Shows i (suc k) (x ∷ ts) ss {s} {t} c e u h =
      let first =
        style_polylines (or_zero x.clasz) (is_highlighted deep_equal filter_trains x) x.polylines
          ss in
      let (r, f, _) =
        style_polylines-AllFollow (or_zero x.clasz) (is_highlighted deep_equal filter_trains x) c.0
          x.polylines ss i s h in
      style_trains-Shows i k ts first {s = r} {t = t} c.1 e u f

zeroed : (a : ℕ) → (if min a 0 == 0 then 12 else min a 0) ≡ 12
zeroed a = ground arith

-- A polyline of class 0 does not keep it: the next train gives it its own class, however high up to
-- 12, as if no train had used it.
pub add_style-zero :
    (clasz : ℕ) (highlight h : Bool) (s : Style)
    → (add_style clasz highlight (add_style 0 h s)).clasz ≡ some (min 12 clasz)
unfolding add_style or_other
add_style-zero clasz highlight h s = ap (λ a. some (min a clasz)) (zeroed (or_other s.clasz))
