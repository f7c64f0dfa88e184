-- ===== src/Protocol/References/Marks.antt =====
-- What `markResolvedType` of tools/protocol/src/schema/resolver.ts does to the types, and what the
-- other changes leave as it was.
use Prim.Native.String.{String}
use motis.Prelude.{
  ℕ, zero, suc, ◌≡◌, refl, ◌∙◌, Bool, true, false, List, [], ◌∷◌, Option, none, some, arith,
}
use motis.ConnectionManager.Trips.{update_at}
use motis.Protocol.Dict.{get, has, change}
use motis.Protocol.Types.{
  TypeRef, UnionValue, TableField, SchemaType, enum_type, union_type, table_type,
}
use motis.Protocol.References.{Types, key_of, on_type}

-- Whether a type that is used in a table, or in a union, says so.
abbrev pub seen_in_table : SchemaType → Bool
seen_in_table (enum_type b vs) = true
seen_in_table (union_type b vs) = true
seen_in_table (table_type t) = t.used_in_table

abbrev pub seen_in_union : SchemaType → Bool
seen_in_union (enum_type b vs) = true
seen_in_union (union_type b vs) = true
seen_in_union (table_type t) = t.used_in_union

abbrev pub holds : (SchemaType → Bool) → Option SchemaType → Bool
holds seen none = false
holds seen (some t) = seen t

-- The reference names a type of the schema, which says that it is used in this way.
abbrev pub reaches : (SchemaType → Bool) → Types → TypeRef → Bool
reaches seen types ref = holds seen (get (key_of ref) types)

-- The members of a type that hold references.
pub data Members : Type 0 where
  no_members : Members
  values : List UnionValue → Members
  fields : List TableField → Members

abbrev pub members : SchemaType → Members
members (enum_type b vs) = no_members
members (union_type b vs) = values vs
members (table_type t) = fields t.fields

abbrev pub members_of : Types → List Members
members_of [] = []
members_of ((key, t) ∷ types) = members t ∷ members_of types

-- The later types have the same keys, and what was used before still says so.
pub record Keeps (types types' : Types) : Type 0 where
  pub keys : (k : String) → has k types' ≡ has k types
  pub in_table :
      (k : String)
      → holds seen_in_table (get k types) ≡ true
      → holds seen_in_table (get k types') ≡ true
  pub in_union :
      (k : String)
      → holds seen_in_union (get k types) ≡ true
      → holds seen_in_union (get k types') ≡ true

pub Keeps-refl : (types : Types) → Keeps types types
Keeps-refl types = record { keys = λ k. refl; in_table = λ k h. h; in_union = λ k h. h }

pub Keeps-trans : {a b c : Types} → Keeps a b → Keeps b c → Keeps a c
Keeps-trans p q = record {
  keys = λ k. q.keys k ∙ p.keys k;
  in_table = λ k h. q.in_table k (p.in_table k h);
  in_union = λ k h. q.in_union k (p.in_union k h);
}

pub holds-change :
    (seen : SchemaType → Bool) (mark : SchemaType → SchemaType) (key k : String) (types : Types)
    → ((t : SchemaType) → seen t ≡ true → seen (mark t) ≡ true)
    → holds seen (get k types) ≡ true
    → holds seen (get k (change key mark types)) ≡ true
holds-change seen mark key k [] up h = h
holds-change seen mark key k ((j, t) ∷ types) up h =
    ground (arith, up t, holds-change seen mark key k types up)

pub holds-update_at :
    (seen : SchemaType → Bool) (f : SchemaType → SchemaType) (i : ℕ) (k : String) (types : Types)
    → ((t : SchemaType) → seen (f t) ≡ seen t)
    → holds seen (get k (update_at i (on_type f) types)) ≡ holds seen (get k types)
holds-update_at seen f i k [] same = refl
holds-update_at seen f zero k ((j, t) ∷ types) same = ground (arith, same t)
holds-update_at seen f (suc i) k ((j, t) ∷ types) same =
    ground (arith, holds-update_at seen f i k types same)

pub has-update_at :
    (f : SchemaType → SchemaType) (i : ℕ) (k : String) (types : Types)
    → has k (update_at i (on_type f) types) ≡ has k types
has-update_at f i k [] = refl
has-update_at f zero k ((j, t) ∷ types) = refl
has-update_at f (suc i) k ((j, t) ∷ types) = ground (arith, has-update_at f i k types)
