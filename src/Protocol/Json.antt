-- ===== src/Protocol/Json.antt =====
-- JSON values, as tools/protocol/src writes them: the schemas of output/json-schema/types.ts are
-- objects with the entries that are set.
use Prim.Native.String.{String}
use motis.Prelude.{Bool, List, [], ◌∷◌}
use motis.Prelude.Int.{ℤ}

mutual
  pub data Json : Type 0 where
    text : String → Json
    boolean : Bool → Json
    number : ℤ → Json
    array : Items → Json
    object : Entries → Json

  pub data Items : Type 0 where
    nil : Items
    cons : Json → Items → Items

  pub data Entries : Type 0 where
    end : Entries
    entry : String → Json → Entries → Entries

abbrev pub items : List Json → Items
items [] = nil
items (j ∷ js) = cons j (items js)

abbrev pub entries : List (String × Json) → Entries
entries [] = end
entries ((k, j) ∷ m) = entry k j (entries m)

-- An array, and an object with the entries in their order.
abbrev pub arr : List Json → Json
arr js = array (items js)

abbrev pub obj : List (String × Json) → Json
obj m = object (entries m)
