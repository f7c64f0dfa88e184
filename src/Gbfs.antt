-- ===== src/Gbfs.antt =====
-- ui/web/js/railviz/gbfs.js: the layers of the vehicle sharing systems. A system on the map has a
-- source and two layers; a layer's look is left out. `addSource` throws if the source is there.
pub mod Update
use motis.Prelude.{
  ℕ, ◌+◌, Bool, true, false, ◌&&◌, not, List, [], ◌∷◌, ◌++◌, Option, none, some, String, str_eq,
  any, keep, ◌==◌, if◌then◌else◌,
}
use mathlib.Core.Option

-- An element of the options list; the script reads only its tag.
pub record SharingOptions : Type 0 where
  pub tag : String

pub record Gbfs : Type 0 where
  pub has_map : Bool
  pub loaded : ℕ
  pub missed_update : Option (List SharingOptions)
  -- `gbfsOptions`, and with it the sources and layers of the map
  pub options : List SharingOptions

abbrev pub has : String → List SharingOptions → Bool
has tag os = any (λ o. str_eq o.tag tag) os

-- The loops that collect `add` and `remove`.
unfoldable pub to_add : List SharingOptions → List SharingOptions → List SharingOptions
to_add new old = keep (λ o. not (has o.tag old)) new

-- What is left after the loop over `remove`.
unfoldable pub remaining : List SharingOptions → List SharingOptions → List SharingOptions
remaining new old = keep (λ o. has o.tag new) old

-- The loop over `add`; `none` is the error of a source that is there already.
unfoldable pub add_all : List SharingOptions → List SharingOptions → Option (List SharingOptions)
add_all [] os = some os
add_all (o ∷ add) os = if has o.tag os then none else add_all add (os ++ o ∷ [])

unfoldable pub sync : List SharingOptions → List SharingOptions → Option (List SharingOptions)
sync new old = add_all (to_add new old) (remaining new old)

unfoldable pub update_layers : List SharingOptions → Gbfs → Option Gbfs
update_layers new g =
    if g.has_map
    then Option.map (λ os. record g { options = os }) (sync new g.options)
    else some (record g { missed_update = some new })

unfoldable pub init : Gbfs → Gbfs
init g = record g { has_map = true; loaded = 0 }

abbrev forget_missed : Gbfs → Gbfs
forget_missed g = record g { missed_update = none }

unfoldable pub catch_up : Option (List SharingOptions) → Gbfs → Option Gbfs
catch_up none g = some g
catch_up (some missed) g = Option.map forget_missed (update_layers missed g)

-- The callback of one of the two images.
unfoldable pub image_loaded : Gbfs → Option Gbfs
image_loaded g =
    let g' = record g { loaded = g.loaded + 1 } in
    if g'.loaded == 2 then catch_up g'.missed_update g' else some g'
