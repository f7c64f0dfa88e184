-- ===== src/Connections/Highlight/Best.antt =====
-- Which id a highlighted feature of ui/web/js/railviz/path_connections.js is coloured by.
use motis.Prelude.{
  ◌≡◌, refl, ap, ◌∙◌, Bool, true, false, List, [], ◌∷◌, Option, none, some, if◌then◌else◌,
  Bool-cases, Option-cases, inl, inr, arith, any, ◌||◌,
}
use motis.Prelude.Int.{ℤ, eq_ℤ_iff}
use motis.ConnectionManager.Ids.{cid_combine, combine_from, reduce_ids}
use motis.ConnectionManager.State.{Connection}
use motis.Connections.Highlight.{
  Key, same_key, MinCids, get_min_cid, set_min_cid, same_cid, add_cid, add_cids, connection_keys,
  find_connection, min_cids,
}

same_key_refl : (k : Key) → same_key k k ≡ true
same_key_refl none = refl
same_key_refl (some a) = ground arith

same_key-eq : (j k : Key) → same_key j k ≡ true → j ≡ k
same_key-eq j k h = ground arith

same_cid-eq : (a b : Option ℤ) → same_cid a b ≡ true → a ≡ b
same_cid-eq none none h = refl
same_cid-eq none (some b) h = cc
same_cid-eq (some a) none h = cc
same_cid-eq (some a) (some b) h = ap some ((eq_ℤ_iff a b).0 h)

get_min_cid-set_self :
    (k : Key) (a : Option ℤ) (m : MinCids) → get_min_cid k (set_min_cid k a m) ≡ a
unfolding get_min_cid set_min_cid
get_min_cid-set_self k a [] = rw (same_key_refl k)
get_min_cid-set_self k a ((j, b) ∷ m) = elim (Bool-cases (same_key j k)) [
  | inl e ↦ rw (e, same_key_refl k)
  | inr e ↦ rw (e, e) (get_min_cid-set_self k a m)
]

get_min_cid-set_ne :
    (k l : Key) (a : Option ℤ) (m : MinCids)
    → same_key k l ≡ false
    → get_min_cid l (set_min_cid k a m) ≡ get_min_cid l m
unfolding get_min_cid set_min_cid
get_min_cid-set_ne k l a [] h = rw h
get_min_cid-set_ne k l a ((j, b) ∷ m) h = elim (Bool-cases (same_key j k)) [
  | inl e ↦ let same = same_key-eq j k e in rw (e, same, h)
  | inr e ↦ ground (arith, get_min_cid-set_ne k l a m h)
]

-- What one round does to the id of a feature.
abbrev combined : ℤ → Bool → Option ℤ → Option ℤ
combined cid true a = cid_combine a (some cid)
combined cid false a = a

add_cid_self :
    (cid : ℤ) (k : Key) (m : MinCids)
    → get_min_cid k (add_cid cid k m) ≡ cid_combine (get_min_cid k m) (some cid)
unfolding add_cid
add_cid_self cid k m =
    elim (Bool-cases (same_cid (get_min_cid k m) (cid_combine (get_min_cid k m) (some cid)))) [
      | inl e ↦ rw e (same_cid-eq _ _ e)
      | inr e ↦ rw e (get_min_cid-set_self k (cid_combine (get_min_cid k m) (some cid)) m)
    ]

add_cid-ne :
    (cid : ℤ) (k l : Key) (m : MinCids)
    → same_key k l ≡ false
    → get_min_cid l (add_cid cid k m) ≡ get_min_cid l m
unfolding add_cid
add_cid-ne cid k l m h =
    elim (Bool-cases (same_cid (get_min_cid k m) (cid_combine (get_min_cid k m) (some cid)))) [
      | inl e ↦ rw e
      | inr e ↦ rw e (get_min_cid-set_ne k l (cid_combine (get_min_cid k m) (some cid)) m h)
    ]

get_min_cid-add_cid :
    (cid : ℤ) (k l : Key) (m : MinCids)
    → get_min_cid l (add_cid cid k m) ≡ combined cid (same_key k l) (get_min_cid l m)
get_min_cid-add_cid cid k l m = elim (Bool-cases (same_key k l)) [
  | inl e ↦ rw (e, ← same_key-eq k l e) (add_cid_self cid k m)
  | inr e ↦ rw e (add_cid-ne cid k l m e)
]

-- The id that a feature has after `ids` were offered to it, one by one.
abbrev offered : Key → ℤ → List Key → Option ℤ → Option ℤ
offered l cid [] a = a
offered l cid (k ∷ ks) a = offered l cid ks (combined cid (same_key k l) a)

get_min_cid-add_cids :
    (cid : ℤ) (ks : List Key) (l : Key) (m : MinCids)
    → get_min_cid l (add_cids cid ks m) ≡ offered l cid ks (get_min_cid l m)
unfolding add_cids
get_min_cid-add_cids cid [] l m = refl
get_min_cid-add_cids cid (k ∷ ks) l m =
    get_min_cid-add_cids cid ks l (add_cid cid k m)
    ∙ ap (offered l cid ks) (get_min_cid-add_cid cid k l m)

-- To combine with an id twice is to combine with it once.
cid_combine-again :
    (a : Option ℤ) (cid : ℤ)
    → cid_combine (cid_combine a (some cid)) (some cid) ≡ cid_combine a (some cid)
unfolding cid_combine
cid_combine-again a cid = ground arith

abbrev pub uses_key : Key → List Key → Bool
uses_key l ks = any (λ k. same_key k l) ks

combined-twice :
    (cid : ℤ) (b c : Bool) (a : Option ℤ)
    → combined cid c (combined cid b a) ≡ combined cid (b || c) a
combined-twice cid true true a = cid_combine-again a cid
combined-twice cid true false a = refl
combined-twice cid false c a = refl

offered-uses :
    (l : Key) (cid : ℤ) (ks : List Key) (a : Option ℤ)
    → offered l cid ks a ≡ combined cid (uses_key l ks) a
offered-uses l cid [] a = refl
offered-uses l cid (k ∷ ks) a =
    offered-uses l cid ks (combined cid (same_key k l) a)
    ∙ combined-twice cid (same_key k l) (uses_key l ks) a

-- The ids of the connections, among those that are to be highlighted, that have the feature.
abbrev pub users : Key → Option (List Connection) → List ℤ → List ℤ
users l connections [] = []
users l connections (cid ∷ cids) =
    let rest = users l connections cids in
    elim (find_connection cid connections) [
      | none ↦ rest
      | some c ↦ if uses_key l (connection_keys c) then c.id ∷ rest else rest
    ]

combine_from-if :
    (cid : ℤ) (b : Bool) (rest : List ℤ) (a : Option ℤ)
    → combine_from (combined cid b a) rest ≡ combine_from a (if b then cid ∷ rest else rest)
unfolding combine_from
combine_from-if cid true rest a = refl
combine_from-if cid false rest a = refl

min_cids-combine_from :
    (connections : Option (List Connection)) (cids : List ℤ) (l : Key) (m : MinCids)
    → get_min_cid l (min_cids connections cids m)
      ≡ combine_from (get_min_cid l m) (users l connections cids)
unfolding min_cids combine_from
min_cids-combine_from connections [] l m = refl
min_cids-combine_from connections (cid ∷ cids) l m =
    elim (Option-cases (find_connection cid connections)) [
      | inl e ↦ rw (users, e) (min_cids-combine_from connections cids l m)
      | inr (c, e) ↦
          let ks = connection_keys c in
          let rest = users l connections cids in
          rw (users, e)
            (min_cids-combine_from connections cids l (add_cids c.id ks m)
              ∙ ap (λ a. combine_from a rest)
                  (get_min_cid-add_cids c.id ks l m ∙ offered-uses l c.id ks (get_min_cid l m))
              ∙ combine_from-if c.id (uses_key l ks) rest (get_min_cid l m))
    ]

combine_from-none : (ids : List ℤ) → combine_from none ids ≡ reduce_ids ids
unfolding combine_from reduce_ids cid_combine
combine_from-none [] = refl
combine_from-none (id ∷ ids) = refl

-- A feature is highlighted by the id that `cIdCombine` selects from all the highlighted connections
-- that have the feature, a feature that none of them has is not highlighted, and it does not matter
-- how often a connection passes along a feature.
pub min_cids-reduce_ids :
    (connections : Option (List Connection)) (cids : List ℤ) (key : Key)
    → get_min_cid key (min_cids connections cids []) ≡ reduce_ids (users key connections cids)
unfolding get_min_cid
min_cids-reduce_ids connections cids key =
    min_cids-combine_from connections cids key [] ∙ combine_from-none (users key connections cids)
