-- ===== src/Trains/Buffers/Layout.antt =====
-- The layout of the colour buffer of ui/web/js/railviz/trains.js: twelve bytes for each train.
use motis.Prelude.{
  ℕ, zero, suc, ◌+◌, ◌*◌, ◌<◌, ◌≤◌, ◌≡◌, refl, subst, ◌≢◌, ◌∙◌, List, [], ◌∷◌, some, length, set,
  replicate, get_elem?, length-set, length-replicate, get_elem?-set_self, get_elem?-set_ne, arith,
  ◌⊎◌, inl, inr, Option-cases, All, get_elem?-some, Bool-cases, ltb, ◌==◌, ◌||◌,
}
use mathlib.Core.Option
use motis.Model.Train.{Train, or_zero}
use motis.Trains.Colors.{
  Color, category_colors, get_category_color, get_delay_color, train_index_to_pick_color,
}
use motis.Trains.Buffers.{write_color, write_train, write_trains, color_data}

-- Three bytes of a buffer, from `offset` on.
pub record HasColor (bytes : List ℕ) (offset : ℕ) (c : Color) : Type 0 where
  pub red : get_elem? bytes offset ≡ some c.red
  pub green : get_elem? bytes (offset + 1) ≡ some c.green
  pub blue : get_elem? bytes (offset + 2) ≡ some c.blue

module _ (bytes : List ℕ) (offset : ℕ) (c : Color) where
  length-write_color : length (write_color offset c bytes) ≡ length bytes
  length-write_color =
      length-set (set (set bytes offset c.red) (offset + 1) c.green) (offset + 2) c.blue
      ∙ length-set (set bytes offset c.red) (offset + 1) c.green
      ∙ length-set bytes offset c.red

  get_elem?-write_color :
      (j : ℕ)
      → j ≢ offset
      → j ≢ offset + 1
      → j ≢ offset + 2
      → get_elem? (write_color offset c bytes) j ≡ get_elem? bytes j
  get_elem?-write_color j h k l =
      get_elem?-set_ne (set (set bytes offset c.red) (offset + 1) c.green) c.blue (omega arith)
      ∙ get_elem?-set_ne (set bytes offset c.red) c.green (omega arith)
      ∙ get_elem?-set_ne bytes c.red (omega arith)

  write_color-HasColor : offset + 2 < length bytes → HasColor (write_color offset c bytes) offset c
  write_color-HasColor h =
      let once = set bytes offset c.red in
      let twice = set once (offset + 1) c.green in
      let once_long = length-set bytes offset c.red in
      let twice_long = length-set once (offset + 1) c.green in
      record {
        red =
            get_elem?-set_ne twice c.blue (omega arith)
            ∙ get_elem?-set_ne once c.green (omega arith)
            ∙ get_elem?-set_self bytes offset c.red (omega arith);
        green =
            get_elem?-set_ne twice c.blue (omega arith)
            ∙ get_elem?-set_self once (offset + 1) c.green (omega arith);
        blue = get_elem?-set_self twice (offset + 2) c.blue (omega arith);
      }

  HasColor-write_color :
      (at : ℕ) (d : Color)
      → (at + 2 < offset) ⊎ (offset + 2 < at)
      → HasColor bytes at d
      → HasColor (write_color offset c bytes) at d
  HasColor-write_color at d away h = record {
    red = get_elem?-write_color at (omega arith) (omega arith) (omega arith) ∙ h.red;
    green = get_elem?-write_color (at + 1) (omega arith) (omega arith) (omega arith) ∙ h.green;
    blue = get_elem?-write_color (at + 2) (omega arith) (omega arith) (omega arith) ∙ h.blue;
  }

-- What the twelve bytes of train `i` hold.
pub record HasTrain (bytes : List ℕ) (i : ℕ) (t : Train) (category : Color) : Type 0 where
  pub is_category : get_category_color t ≡ some category
  pub delay : HasColor bytes (i * 12) (get_delay_color t)
  pub class : HasColor bytes (i * 12 + 4) category
  pub pick : HasColor bytes (i * 12 + 8) (train_index_to_pick_color i)

module _ (i : ℕ) (t : Train) (bytes : List ℕ) (category : Color) where
  abbrev written : List ℕ
  written =
      write_color (i * 12 + 8) (train_index_to_pick_color i)
        (write_color (i * 12 + 4) category (write_color (i * 12) (get_delay_color t) bytes))

  abbrev one : List ℕ
  one = write_color (i * 12) (get_delay_color t) bytes

  abbrev two : List ℕ
  two = write_color (i * 12 + 4) category one

  length-written : length written ≡ length bytes
  length-written =
      length-write_color two (i * 12 + 8) (train_index_to_pick_color i)
      ∙ length-write_color one (i * 12 + 4) category
      ∙ length-write_color bytes (i * 12) (get_delay_color t)

  written-HasTrain :
      get_category_color t ≡ some category
      → i * 12 + 11 < length bytes
      → HasTrain written i t category
  written-HasTrain e h =
      let long = length-write_color bytes (i * 12) (get_delay_color t) in
      let long' = length-write_color one (i * 12 + 4) category in
      record {
        is_category = e;
        delay = HasColor-write_color two (i * 12 + 8) _ (i * 12) (get_delay_color t) (omega arith) (
            HasColor-write_color one (i * 12 + 4) _ (i * 12) (get_delay_color t) (omega arith)
              (write_color-HasColor bytes (i * 12) (get_delay_color t) (omega arith)));
        class =
            HasColor-write_color two (i * 12 + 8) _ (i * 12 + 4) category (omega arith)
              (write_color-HasColor one (i * 12 + 4) category (omega arith));
        pick = write_color-HasColor two (i * 12 + 8) _ (omega arith);
      }

  HasColor-written :
      (at : ℕ) (c : Color) → at + 3 ≤ i * 12 → HasColor bytes at c → HasColor written at c
  HasColor-written at c h k = HasColor-write_color two (i * 12 + 8) _ at c (omega arith) (
      HasColor-write_color one (i * 12 + 4) _ at c (omega arith)
        (HasColor-write_color bytes (i * 12) _ at c (omega arith) k))

-- The later rounds leave the bytes before them alone, and the buffer's length.
write_trains-keeps :
    (i : ℕ) (ts : List Train) (bytes : List ℕ) {result : List ℕ}
    → write_trains i ts bytes ≡ some result
    → (length result ≡ length bytes)
      × ((at : ℕ) (c : Color) → at + 3 ≤ i * 12 → HasColor bytes at c → HasColor result at c)
unfolding write_trains write_train Option.bind
write_trains-keeps i [] bytes {result} h =
    let e : bytes ≡ result = cc in rw (← e) (refl, λ at c k has. has)
write_trains-keeps i (t ∷ ts) bytes {result} h = elim (Option-cases (get_category_color t)) [
  | inl e ↦ let h' = rw e at h in cc
  | inr (category, e) ↦
      let (long, keeps) =
        write_trains-keeps (i + 1) ts (written i t bytes category) {result = result} (rw e at h) in
      (
        long ∙ length-written i t bytes category,
        λ at c k has. keeps at c (omega arith) (HasColor-written i t bytes category at c k has),
      )
]

HasTrain-keeps :
    (i : ℕ) (t : Train) (category : Color) (bytes result : List ℕ)
    → ((at : ℕ) (c : Color) → at + 3 ≤ (i + 1) * 12 → HasColor bytes at c → HasColor result at c)
    → HasTrain bytes i t category
    → HasTrain result i t category
HasTrain-keeps i t category bytes result keeps h = record {
  is_category = h.is_category;
  delay = keeps (i * 12) _ (omega arith) h.delay;
  class = keeps (i * 12 + 4) _ (omega arith) h.class;
  pick = keeps (i * 12 + 8) _ (omega arith) h.pick;
}

write_trains-HasTrain :
    (i : ℕ) (ts : List Train) (bytes : List ℕ) {result : List ℕ}
    → write_trains i ts bytes ≡ some result
    → (i + length ts) * 12 ≤ length bytes
    → (k n : ℕ) (t : Train) → n ≡ i + k
    → get_elem? ts k ≡ some t
    → (category : Color) × HasTrain result n t category
unfolding write_trains write_train Option.bind
write_trains-HasTrain i [] bytes h room k n t sum e = cc
write_trains-HasTrain i (t ∷ ts) bytes {result} h room zero n u sum e =
    elim (Option-cases (get_category_color t)) [
      | inl c ↦ let h' = rw c at h in cc
      | inr (category, c) ↦
          let same : t ≡ u = cc in
          let now = written i t bytes category in
          let kept = (write_trains-keeps (i + 1) ts now {result = result} (rw c at h)).1 in
          let h' =
            HasTrain-keeps i t category now result kept
              (written-HasTrain i t bytes category c (omega arith)) in
          (category, rw (← same) (subst (λ j. HasTrain result j t category) (omega arith) h'))
    ]
write_trains-HasTrain i (t ∷ ts) bytes {result} h room (suc k) n u sum e =
    elim (Option-cases (get_category_color t)) [
      | inl c ↦ let h' = rw c at h in cc
      | inr (category, c) ↦
          let now = written i t bytes category in
          let long : length now ≡ length bytes = length-written i t bytes category in
          write_trains-HasTrain (i + 1) ts now {result = result} (rw c at h) (omega arith) k n u
            (omega arith) e
    ]

-- The colour buffer has twelve bytes for each train, and those of train `i` are its colour by delay,
-- its colour by class and the colour of its index.
pub color_data-HasTrain :
    (trains : List Train) (bytes : List ℕ)
    → color_data trains ≡ some bytes
    → (length bytes ≡ length trains * 12)
      × ((i : ℕ) (t : Train)
          → get_elem? trains i ≡ some t
          → (category : Color) × HasTrain bytes i t category)
unfolding color_data
color_data-HasTrain trains bytes h =
    let zeros : List ℕ = replicate (length trains * 12) 0 in
    let long : length zeros ≡ length trains * 12 = length-replicate (length trains * 12) 0 in
    (
      (write_trains-keeps 0 trains zeros h).0 ∙ long,
      λ i t e. write_trains-HasTrain 0 trains zeros h (omega arith) i i t (omega arith) e,
    )

-- There is a category colour for every class up to 12.
abbrev pub HasClass : Train → Type 0
HasClass t = or_zero t.clasz ≤ 12

get_category_color-some : (t : Train) → HasClass t → (c : Color) × (get_category_color t ≡ some c)
unfolding get_category_color
get_category_color-some t h = elim (Bool-cases (or_zero t.clasz == 9 || or_zero t.clasz == 10)) [
  | inl bus ↦ elim (Bool-cases (ltb 10000 t.route_distance)) [
    | inl far ↦ rw (bus, far) (get_elem?-some category_colors 9 (omega arith))
    | inr near ↦ rw (bus, near) (get_elem?-some category_colors 10 (omega arith))
  ]
  | inr other ↦ rw other (get_elem?-some category_colors (or_zero t.clasz) (omega arith))
]

write_trains-some :
    (i : ℕ) (ts : List Train) (bytes : List ℕ)
    → All HasClass ts
    → (result : List ℕ) × (write_trains i ts bytes ≡ some result)
unfolding write_trains write_train Option.bind
write_trains-some i [] bytes h = (bytes, refl)
write_trains-some i (t ∷ ts) bytes h =
    let (c, e) = get_category_color-some t h.0 in
    rw e (write_trains-some (i + 1) ts (written i t bytes c) h.1)

pub color_data-some :
    (ts : List Train) → All HasClass ts → (bytes : List ℕ) × (color_data ts ≡ some bytes)
unfolding color_data
color_data-some ts h = write_trains-some 0 ts (replicate (length ts * 12) 0) h
