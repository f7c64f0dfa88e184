-- ===== src/ConnectionManager/Walks/Grouping.antt =====
-- How `requestWalks` of ui/web/js/railviz/connectionmgr.js groups walks: one entry for each key.
use motis.Prelude.{
  ℕ, suc, Bool, map, length, subst, if◌then◌else◌, ◌+◌, ◌≡◌, refl, ◌∙◌, true, false, List, [], ◌∷◌,
  ◌++◌, some, get_elem?, All, any, arith, Bool-cases, inl, inr, str_eq_iff,
}
use motis.Prelude.Int.{ℤ, eq_ℤ, eq_ℤ_iff}
use motis.ConnectionManager.Walks.{
  Walk, WalkKey, walk_id, same_key, WalkEntry, new_entry, add_connection, add_walk, add_walks,
  or_else,
}

-- The number of an entry is its place in the list, which starts at `i`.
abbrev pub IsNumbered : ℕ → List WalkEntry → Type 0
IsNumbered i [] = Unit
IsNumbered i (w ∷ ws) = (w.id ≡ i) × IsNumbered (i + 1) ws

-- No entry has the key.
abbrev pub IsFresh : WalkKey → List WalkEntry → Type 0
IsFresh k ws = All (λ w. same_key (walk_id w.walk) k ≡ false) ws

-- No two entries have the same key.
abbrev pub AreDistinct : List WalkEntry → Type 0
AreDistinct [] = Unit
AreDistinct (w ∷ ws) = IsFresh (walk_id w.walk) ws × AreDistinct ws

add_walk-IsNumbered :
    (i : ℕ) (cid : ℤ) (walk : Walk) (ws : List WalkEntry)
    → IsNumbered i ws
    → IsNumbered i (add_walk i cid walk ws).entries
unfolding add_walk add_connection new_entry
add_walk-IsNumbered i cid walk [] n = (refl, tt)
add_walk-IsNumbered i cid walk (w ∷ ws) n =
    elim (Bool-cases (same_key (walk_id w.walk) (walk_id walk))) [
      | inl e ↦ rw e n
      | inr e ↦ rw e (n.0, add_walk-IsNumbered (i + 1) cid walk ws n.1)
    ]

same_key_refl : (a : WalkKey) → same_key a a ≡ true
unfolding same_key
same_key_refl a = ground (arith, (str_eq_iff a.mumo_type a.mumo_type).1 refl)

same_key-eq : (a b : WalkKey) → same_key a b ≡ true → a ≡ b
unfolding same_key
same_key-eq a b h = ground (
  arith,
  str_eq_iff a.mumo_type b.mumo_type,
  eq_ℤ_iff a.start.lat b.start.lat,
  eq_ℤ_iff a.start.lng b.start.lng,
  eq_ℤ_iff a.finish.lat b.finish.lat,
  eq_ℤ_iff a.finish.lng b.finish.lng,
)

same_key-sym : (a b : WalkKey) → same_key a b ≡ false → same_key b a ≡ false
same_key-sym a b h = elim (Bool-cases (same_key b a)) [
  | inl e ↦ let e' = rw (same_key-eq b a e) at h in cc (e', same_key_refl a)
  | inr e ↦ e
]

-- The walks' keys stay as they are, and at most a fresh one is added.
add_walk-IsFresh :
    (i : ℕ) (cid : ℤ) (walk : Walk) (k : WalkKey) (ws : List WalkEntry)
    → same_key (walk_id walk) k ≡ false
    → IsFresh k ws
    → IsFresh k (add_walk i cid walk ws).entries
unfolding add_walk add_connection new_entry
add_walk-IsFresh i cid walk k [] e f = (e, tt)
add_walk-IsFresh i cid walk k (w ∷ ws) e f =
    elim (Bool-cases (same_key (walk_id w.walk) (walk_id walk))) [
      | inl same ↦ rw same f
      | inr other ↦ rw other (f.0, add_walk-IsFresh (i + 1) cid walk k ws e f.1)
    ]

add_walk-AreDistinct :
    (i : ℕ) (cid : ℤ) (walk : Walk) (ws : List WalkEntry)
    → AreDistinct ws
    → AreDistinct (add_walk i cid walk ws).entries
unfolding add_walk add_connection new_entry
add_walk-AreDistinct i cid walk [] d = (tt, tt)
add_walk-AreDistinct i cid walk (w ∷ ws) d =
    elim (Bool-cases (same_key (walk_id w.walk) (walk_id walk))) [
      | inl same ↦ rw same d
      | inr other ↦ rw other (
        add_walk-IsFresh (i + 1) cid walk (walk_id w.walk) ws
            (same_key-sym (walk_id w.walk) (walk_id walk) other) d.0,
        add_walk-AreDistinct (i + 1) cid walk ws d.1,
      )
    ]

-- Among the entries, from number `i` on, number `index` is for the key, and lists the connection.
abbrev pub IsEntryFor : ℕ → ℤ → WalkKey → List WalkEntry → ℕ → Type 0
IsEntryFor i cid k ws index =
    (n : ℕ) × (w : WalkEntry) × (index ≡ i + n)
    × (get_elem? ws n ≡ some w)
    × (walk_id w.walk ≡ k)
    × (any (λ c. eq_ℤ c cid) w.connection_ids ≡ true)

any-last : (cid : ℤ) (cs : List ℤ) → any (λ c. eq_ℤ c cid) (cs ++ cid ∷ []) ≡ true
any-last cid [] = ground arith
any-last cid (c ∷ cs) = ground (arith, any-last cid cs)

add_walk-IsEntryFor :
    (i : ℕ) (cid : ℤ) (walk : Walk) (ws : List WalkEntry)
    → IsNumbered i ws
    → let added = add_walk i cid walk ws in
      IsEntryFor i cid (walk_id walk) added.entries added.index
unfolding add_walk add_connection new_entry
add_walk-IsEntryFor i cid walk [] n = (0, _, omega arith, refl, refl, any-last cid [])
add_walk-IsEntryFor i cid walk (w ∷ ws) n =
    elim (Bool-cases (same_key (walk_id w.walk) (walk_id walk))) [
      | inl same ↦
          rw same
            (0, _, n.0 ∙ omega arith, refl, same_key-eq _ _ same, any-last cid w.connection_ids)
      | inr other ↦
          let (k, v, index, at, key, lists) = add_walk-IsEntryFor (i + 1) cid walk ws n.1 in
          rw other (suc k, v, index ∙ omega arith, at, key, lists)
    ]

-- The walk's entry lists the connection last, and has the walk's polyline if it had none; another
-- entry stays as it is.
abbrev pub joined : ℤ → Walk → WalkEntry → WalkEntry
joined cid walk w =
    if same_key (walk_id w.walk) (walk_id walk)
    then record w {
      connection_ids = w.connection_ids ++ cid ∷ [];
      polyline = or_else w.polyline walk.polyline;
    }
    else w

abbrev pub has_key : WalkKey → List WalkEntry → Bool
has_key k ws = any (λ w. same_key (walk_id w.walk) k) ws

-- A new entry at the end, where no entry has the key.
abbrev pub unless_there : Bool → ℕ → ℤ → Walk → List WalkEntry
unless_there true i cid walk = []
unless_there false i cid walk =
    record (new_entry i walk) { connection_ids = cid ∷ []; polyline = walk.polyline } ∷ []

fresh-joined :
    (cid : ℤ) (walk : Walk) (ws : List WalkEntry)
    → IsFresh (walk_id walk) ws
    → map (joined cid walk) ws ++ [] ≡ ws
fresh-joined cid walk [] f = refl
fresh-joined cid walk (w ∷ ws) f = rw (f.0, fresh-joined cid walk ws f.1) refl

add_walk-entries :
    (i : ℕ) (cid : ℤ) (walk : Walk) (ws : List WalkEntry)
    → AreDistinct ws
    → (add_walk i cid walk ws).entries
      ≡ map (joined cid walk) ws
        ++ unless_there (has_key (walk_id walk) ws) (i + length ws) cid walk
unfolding add_walk add_connection new_entry
add_walk-entries i cid walk [] d = let e : i ≡ i + 0 = omega arith in rw (← e) refl
add_walk-entries i cid walk (w ∷ ws) d =
    elim (Bool-cases (same_key (walk_id w.walk) (walk_id walk))) [
      | inl same ↦
          rw (same, fresh-joined cid walk ws (subst (λ k. IsFresh k ws) (same-key-eq' same) d.0))
            refl
      | inr other ↦
          let shift : i + 1 + length ws ≡ i + length (w ∷ ws) = omega arith in
          rw (other, add_walk-entries (i + 1) cid walk ws d.1, shift) refl
    ]
  where
    same-key-eq' : same_key (walk_id w.walk) (walk_id walk) ≡ true → walk_id w.walk ≡ walk_id walk
    same-key-eq' same = same_key-eq (walk_id w.walk) (walk_id walk) same

zero_add : (n : ℕ) → 0 + n ≡ n
zero_add n = omega arith

-- One entry for each key, if the entries are numbered by their places and have different keys. The
-- entry of the walk's key lists the walk's connection after those that it listed, and takes the walk's
-- polyline if it has none; if there is no such entry, there is a new one at the end, with this
-- connection only; all other entries stay as they are. The number that the walk gets is the place of
-- the entry of its key, and the entries are still numbered by their places and have different keys.
pub add_walk-groups :
    (cid : ℤ) (walk : Walk) (ws : List WalkEntry)
    → IsNumbered 0 ws
    → AreDistinct ws
    → let added = add_walk 0 cid walk ws in
      (added.entries
        ≡ map (joined cid walk) ws ++ unless_there (has_key (walk_id walk) ws) (length ws) cid walk)
      × IsNumbered 0 added.entries
      × AreDistinct added.entries
      × IsEntryFor 0 cid (walk_id walk) added.entries added.index
add_walk-groups cid walk ws n d = (
  subst
      (λ n.
        (add_walk 0 cid walk ws).entries
        ≡ map (joined cid walk) ws ++ unless_there (has_key (walk_id walk) ws) n cid walk)
      (zero_add (length ws)) (add_walk-entries 0 cid walk ws d),
  add_walk-IsNumbered 0 cid walk ws n,
  add_walk-AreDistinct 0 cid walk ws d,
  add_walk-IsEntryFor 0 cid walk ws n,
)

pub add_walks-IsNumbered :
    (cid : ℤ) (walks : List Walk) (ws : List WalkEntry)
    → IsNumbered 0 ws
    → IsNumbered 0 (add_walks cid walks ws).entries
unfolding add_walks
add_walks-IsNumbered cid [] ws n = n
add_walks-IsNumbered cid (walk ∷ walks) ws n =
    add_walks-IsNumbered cid walks (add_walk 0 cid walk ws).entries
      (add_walk-IsNumbered 0 cid walk ws n)
