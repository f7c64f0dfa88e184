-- ===== src/Protocol/References/Marking.antt =====
-- The changes that tools/protocol/src/schema/resolver.ts makes to the types keep what was there.
use Prim.Native.String.{String}
use motis.Prelude.{
  ℕ, ◌≡◌, refl, ◌∙◌, Bool, true, List, [], ◌∷◌, str_eq, arith, Bool-cases, inl, inr,
}
use motis.ConnectionManager.Trips.{update_at}
use motis.Protocol.Dict.{get, has, change, has-change}
use motis.Protocol.Types.{UnionValue, TableField, SchemaType, enum_type, union_type, table_type}
use motis.Protocol.References.{Types, use_in_table, use_in_union, with_values, with_fields, on_type}
use motis.Protocol.References.Marks.{
  seen_in_table, seen_in_union, holds, members, members_of, Keeps, holds-change, holds-update_at,
  has-update_at,
}

use_in_table-keeps_table :
    (t : SchemaType) → seen_in_table t ≡ true → seen_in_table (use_in_table t) ≡ true
use_in_table-keeps_table (enum_type b vs) h = refl
use_in_table-keeps_table (union_type b vs) h = refl
use_in_table-keeps_table (table_type t) h = refl

use_in_table-keeps_union :
    (t : SchemaType) → seen_in_union t ≡ true → seen_in_union (use_in_table t) ≡ true
use_in_table-keeps_union (enum_type b vs) h = refl
use_in_table-keeps_union (union_type b vs) h = refl
use_in_table-keeps_union (table_type t) h = h

use_in_union-keeps_table :
    (t : SchemaType) → seen_in_table t ≡ true → seen_in_table (use_in_union t) ≡ true
use_in_union-keeps_table (enum_type b vs) h = refl
use_in_union-keeps_table (union_type b vs) h = refl
use_in_union-keeps_table (table_type t) h = h

use_in_union-keeps_union :
    (t : SchemaType) → seen_in_union t ≡ true → seen_in_union (use_in_union t) ≡ true
use_in_union-keeps_union (enum_type b vs) h = refl
use_in_union-keeps_union (union_type b vs) h = refl
use_in_union-keeps_union (table_type t) h = refl

-- A mark, with what it says of the type that it marks.
pub record Marks (seen : SchemaType → Bool) (mark : SchemaType → SchemaType) : Type 0 where
  pub marked : (t : SchemaType) → seen (mark t) ≡ true
  pub table : (t : SchemaType) → seen_in_table t ≡ true → seen_in_table (mark t) ≡ true
  pub union : (t : SchemaType) → seen_in_union t ≡ true → seen_in_union (mark t) ≡ true
  pub same : (t : SchemaType) → members (mark t) ≡ members t

pub use_in_table-Marks : Marks seen_in_table use_in_table
use_in_table-Marks = record {
  marked = marked;
  table = use_in_table-keeps_table;
  union = use_in_table-keeps_union;
  same = same;
}
  where
    marked : (t : SchemaType) → seen_in_table (use_in_table t) ≡ true
    marked (enum_type b vs) = refl
    marked (union_type b vs) = refl
    marked (table_type t) = refl

    same : (t : SchemaType) → members (use_in_table t) ≡ members t
    same (enum_type b vs) = refl
    same (union_type b vs) = refl
    same (table_type t) = refl

pub use_in_union-Marks : Marks seen_in_union use_in_union
use_in_union-Marks = record {
  marked = marked;
  table = use_in_union-keeps_table;
  union = use_in_union-keeps_union;
  same = same;
}
  where
    marked : (t : SchemaType) → seen_in_union (use_in_union t) ≡ true
    marked (enum_type b vs) = refl
    marked (union_type b vs) = refl
    marked (table_type t) = refl

    same : (t : SchemaType) → members (use_in_union t) ≡ members t
    same (enum_type b vs) = refl
    same (union_type b vs) = refl
    same (table_type t) = refl

pub change-Keeps :
    {seen : SchemaType → Bool} {mark : SchemaType → SchemaType} (key : String) (types : Types)
    → Marks seen mark
    → Keeps types (change key mark types)
change-Keeps {mark} key types m = record {
  keys = λ k. has-change key k mark types;
  in_table = λ k. holds-change seen_in_table mark key k types m.table;
  in_union = λ k. holds-change seen_in_union mark key k types m.union;
}

pub members_of-change :
    {seen : SchemaType → Bool} {mark : SchemaType → SchemaType} (key : String) (types : Types)
    → Marks seen mark
    → members_of (change key mark types) ≡ members_of types
members_of-change key [] m = refl
members_of-change {mark} key ((j, t) ∷ types) m =
    ground (arith, m.same t, members_of-change key types m)

-- A type that the schema has says that it is used, after it has been marked.
pub holds-marked :
    {seen : SchemaType → Bool} {mark : SchemaType → SchemaType} (key : String) (types : Types)
    → Marks seen mark
    → has key types ≡ true
    → holds seen (get key (change key mark types)) ≡ true
holds-marked key [] m h = cc h
holds-marked {seen} {mark} key ((j, t) ∷ types) m h = elim (Bool-cases (str_eq j key)) [
  | inl e ↦ rw (e, e) (m.marked t)
  | inr e ↦ rw (e, e) (holds-marked key types m (rw e at h))
]

pub with_values-Keeps :
    (vs : List UnionValue) (i : ℕ) (types : Types)
    → Keeps types (update_at i (on_type (with_values vs)) types)
with_values-Keeps vs i types = record {
  keys = λ k. has-update_at (with_values vs) i k types;
  in_table = λ k h. holds-update_at seen_in_table (with_values vs) i k types table ∙ h;
  in_union = λ k h. holds-update_at seen_in_union (with_values vs) i k types union ∙ h;
}
  where
    table : (t : SchemaType) → seen_in_table (with_values vs t) ≡ seen_in_table t
    table (enum_type b us) = refl
    table (union_type b us) = refl
    table (table_type t) = refl

    union : (t : SchemaType) → seen_in_union (with_values vs t) ≡ seen_in_union t
    union (enum_type b us) = refl
    union (union_type b us) = refl
    union (table_type t) = refl

pub with_fields-Keeps :
    (fs : List TableField) (i : ℕ) (types : Types)
    → Keeps types (update_at i (on_type (with_fields fs)) types)
with_fields-Keeps fs i types = record {
  keys = λ k. has-update_at (with_fields fs) i k types;
  in_table = λ k h. holds-update_at seen_in_table (with_fields fs) i k types table ∙ h;
  in_union = λ k h. holds-update_at seen_in_union (with_fields fs) i k types union ∙ h;
}
  where
    table : (t : SchemaType) → seen_in_table (with_fields fs t) ≡ seen_in_table t
    table (enum_type b us) = refl
    table (union_type b us) = refl
    table (table_type t) = refl

    union : (t : SchemaType) → seen_in_union (with_fields fs t) ≡ seen_in_union t
    union (enum_type b us) = refl
    union (union_type b us) = refl
    union (table_type t) = refl
