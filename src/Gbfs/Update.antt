-- ===== src/Gbfs/Update.antt =====
-- After an update of ui/web/js/railviz/gbfs.js the systems on the map are those of the options list.
use motis.Prelude.{
  ◌≡◌, refl, ap, ap₂, sym, ◌∙◌, Bool, true, false, ◌&&◌, ◌||◌, not, List, [], ◌∷◌, ◌++◌, some,
  String, str_eq, str_eq_iff, keep, All, if◌then◌else◌, Bool-cases, inl, inr, arith,
}
use motis.Gbfs.{
  SharingOptions, Gbfs, has, to_add, remaining, add_all, sync, update_layers, catch_up,
  image_loaded,
}

has-append : (t : String) (xs ys : List SharingOptions) → has t (xs ++ ys) ≡ (has t xs || has t ys)
has-append t [] ys = refl
has-append t (x ∷ xs) ys = ground (arith, has-append t xs ys)

has-if :
    (t : String) (b : Bool) (x : SharingOptions) (rest : List SharingOptions)
    → has t (if b then x ∷ rest else rest) ≡ (str_eq x.tag t && b || has t rest)
has-if t b x rest = ground arith

spread : (s p h q : Bool) → (s ≡ true → p ≡ q) → (s && p || h && q) ≡ ((s || h) && q)
spread true p h q e = ground (arith, e refl)
spread false p h q e = refl

-- Whether a system is among those that a test on the tag lets through.
has-keep :
    (t : String) (test : String → Bool) (xs : List SharingOptions)
    → has t (keep (λ o. test o.tag) xs) ≡ (has t xs && test t)
has-keep t test [] = refl
has-keep t test (x ∷ xs) =
    has-if t (test x.tag) x (keep (λ o. test o.tag) xs)
    ∙ ap (λ b. str_eq x.tag t && test x.tag || b) (has-keep t test xs)
    ∙ spread (str_eq x.tag t) (test x.tag) (has t xs) (test t)
        (λ e. ap test ((str_eq_iff x.tag t).0 e))

-- No tag stands there twice.
abbrev pub AreDistinct : List SharingOptions → Type 0
AreDistinct [] = Unit
AreDistinct (o ∷ os) = (has o.tag os ≡ false) × AreDistinct os

keep-AreDistinct :
    (test : String → Bool) (xs : List SharingOptions)
    → AreDistinct xs
    → AreDistinct (keep (λ o. test o.tag) xs)
keep-AreDistinct test [] d = tt
keep-AreDistinct test (x ∷ xs) d = elim (Bool-cases (test x.tag)) [
  | inl e ↦
      rw e (has-keep x.tag test xs ∙ ap (λ b. b && test x.tag) d.0, keep-AreDistinct test xs d.1)
  | inr e ↦ rw e (keep-AreDistinct test xs d.1)
]

All-has :
    (x : SharingOptions) (add os : List SharingOptions)
    → has x.tag add ≡ false
    → All (λ o. has o.tag os ≡ false) add
    → All (λ o. has o.tag (os ++ x ∷ []) ≡ false) add
All-has x [] os h a = tt
All-has x (o ∷ add) os h a =
    (has-append o.tag os (x ∷ []) ∙ ground (arith, a.0, apart), All-has x add os (ground arith) a.1)
  where
    apart : str_eq x.tag o.tag ≡ false
    apart = elim (Bool-cases (str_eq x.tag o.tag)) [
      | inl e ↦
          let back : str_eq o.tag x.tag ≡ true =
            (str_eq_iff o.tag x.tag).1 (sym ((str_eq_iff x.tag o.tag).0 e)) in
          ground arith
      | inr e ↦ e
    ]

add_all-some :
    (add os : List SharingOptions)
    → AreDistinct add
    → All (λ o. has o.tag os ≡ false) add
    → (result : List SharingOptions) × (add_all add os ≡ some result)
      × ((t : String) → has t result ≡ (has t os || has t add))
unfolding add_all
add_all-some [] os d a = (os, refl, λ t. ground arith)
add_all-some (o ∷ add) os d a =
    let (result, e, tags) = add_all-some add (os ++ o ∷ []) d.1 (All-has o add os d.0 a.1) in
    rw (a.0)
      (result, e, λ t. tags t ∙ ap (λ b. b || has t add) (has-append t os (o ∷ [])) ∙ ground arith)

-- The new systems are not among the remaining ones.
to_add-AreNew :
    (new old add : List SharingOptions)
    → All (λ o. has o.tag (remaining new old) ≡ false) (keep (λ o. not (has o.tag old)) add)
unfolding remaining
to_add-AreNew new old [] = tt
to_add-AreNew new old (o ∷ add) = elim (Bool-cases (has o.tag old)) [
  | inl e ↦ rw e (to_add-AreNew new old add)
  | inr e ↦ rw e (
    has-keep o.tag (λ t. has t new) old ∙ ap (λ b. b && has o.tag new) e,
    to_add-AreNew new old add,
  )
]

merged : (n o : Bool) → (o && n || n && not o) ≡ n
merged n o = ground arith

remaining-has :
    (new old : List SharingOptions) (t : String)
    → has t (remaining new old) ≡ (has t old && has t new)
unfolding remaining
remaining-has new old t = has-keep t (λ u. has u new) old

-- If no tag stands twice in the list, an update does not fail, and afterwards the systems on the map
-- are exactly those of the list, whatever was there before.
pub sync-has :
    (new old : List SharingOptions)
    → AreDistinct new
    → (os : List SharingOptions) × (sync new old ≡ some os)
      × ((tag : String) → has tag os ≡ has tag new)
unfolding sync to_add
sync-has new old d =
    let (os, e, tags) =
      add_all-some (keep (λ o. not (has o.tag old)) new) (remaining new old)
        (keep-AreDistinct (λ t. not (has t old)) new d) (to_add-AreNew new old new) in
    (
      os,
      e,
      λ t.
          tags t
          ∙ ap₂ (λ a b. a || b) (remaining-has new old t) (has-keep t (λ u. not (has u old)) new)
          ∙ merged (has t new) (has t old),
    )

-- An update that came before `init` is caught up on when both images are there, also if another one
-- has come since then and is on the map: then the systems are those of the older update again.
image_loaded-missed :
    (missed : List SharingOptions) (g : Gbfs)
    → g.has_map ≡ true
    → g.loaded ≡ 1
    → g.missed_update ≡ some missed
    → AreDistinct missed
    → (g' : Gbfs) × (image_loaded g ≡ some g')
      × ((tag : String) → has tag g'.options ≡ has tag missed)
unfolding image_loaded catch_up update_layers
image_loaded-missed missed g h l m d =
    let (os, e, tags) = sync-has missed g.options d in rw (h, l, m, e) (_, refl, tags)
