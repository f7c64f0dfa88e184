-- ===== src/Protocol/JsonSchema/Bounds.antt =====
-- The bounds of integers in the schemas of tools/protocol/src/output/json-schema/primitive-types.ts.
use Prim.Native.String.{String}
use motis.Prelude.{
  ℕ, ◌-◌, ◌*◌, ◌^◌, ◌<◌, ◌≡◌, ◌↔◌, refl, Bool, true, false, ◌∷◌, Option, some, ltb, if◌then◌else◌,
  arith, ◌++◌, sym, subst, Bool-cases, inl, inr, str_eq, ◌==◌,
}
use motis.Prelude.Int.{ℤ, pos, negsuc, ◌≤ℤ◌}
use motis.Protocol.Dict.{get}
use motis.Protocol.Ast.{
  IntType, byte, ubyte, short, ushort, int, uint, long, ulong, int8, uint8, int16, uint16, int32,
  uint32, int64, uint64, bits, is_unsigned, int_type,
}
use motis.Protocol.Json.{Json, text, number}
use motis.Protocol.JsonSchema.{
  Fields, JsContext, when, int_format, strict_bounds, int_fields, basic_type_to_js,
}

-- What `minimum` and `maximum` of a schema say of a number.
abbrev AtLeast : Option Json → ℤ → Type 0
AtLeast (some (number m)) n = m ≤ℤ n
AtLeast _ n = Unit

abbrev AtMost : Option Json → ℤ → Type 0
AtMost (some (number m)) n = n ≤ℤ m
AtMost _ n = Unit

abbrev pub Accepts : Fields → ℤ → Type 0
Accepts m n = AtLeast (get "minimum" m) n × AtMost (get "maximum" m) n

-- The number that a bit pattern of `2 * half` values stands for, in two's complement if it is signed.
abbrev pub value_of : Bool → ℕ → ℕ → ℤ
value_of true half p = pos p
value_of false half p = if ltb p half then pos p else negsuc (2 * half - 1 - p)

abbrev pub IsValue : Bool → ℕ → ℤ → Type 0
IsValue unsigned half n = (p : ℕ) × (p < 2 * half) × (n ≡ value_of unsigned half p)

unsigned_range :
    (half : ℕ) (n : ℤ) → 0 < half → ((pos 0 ≤ℤ n) × (n ≤ℤ pos (2 * half - 1))) ↔ IsValue true half n
unsigned_range half (pos p) h = (λ r. (p, omega (arith, r.1, h), refl), λ (q, b, e). ground arith)
unsigned_range half (negsuc p) h = (λ r. absurd (omega (arith, r.0)), λ (q, b, e). cc)

signed_range :
    (half : ℕ) (n : ℤ)
    → 0 < half
    → ((negsuc (half - 1) ≤ℤ n) × (n ≤ℤ pos (half - 1))) ↔ IsValue false half n
signed_range half (pos p) h =
    (λ r. (p, omega (arith, r.1, h), ground arith), λ (q, b, e). ground arith)
signed_range half (negsuc p) h =
    (λ r. (2 * half - 1 - p, omega (arith, r.0, h), ground arith), λ (q, b, e). ground arith)

get-format :
    (key : String) (number_formats : Bool) (b : ℕ) (m : Fields)
    → str_eq "format" key ≡ false
    → get key (when number_formats (int_format b) ++ m) ≡ get key m
get-format key false b m h = refl
get-format key true b m h = elim (Bool-cases (b == 32)) [
  | inl e ↦ rw (e, h) refl
  | inr e ↦ elim (Bool-cases (b == 64)) [ inl f ↦ rw (e, f, h) refl | inr f ↦ rw (e, f) refl ]
]

signed_fields :
    (number_formats : Bool) (b : ℕ) (n : ℤ)
    → 0 < 2 ^ (b - 1)
    → Accepts
        (("type", text "integer") ∷ (when number_formats (int_format b) ++ strict_bounds false b))
        n
      ↔ IsValue false (2 ^ (b - 1)) n
signed_fields number_formats b n h =
    rw
      (
        get-format "minimum" number_formats b (strict_bounds false b) refl,
        get-format "maximum" number_formats b (strict_bounds false b) refl,
      )
      (signed_range (2 ^ (b - 1)) n h)

range :
    (number_formats : Bool) (t : IntType) (n : ℤ)
    → ltb (bits t) 64 ≡ true
    → Accepts (int_fields number_formats true t) n ↔ IsValue (is_unsigned t) (2 ^ (bits t - 1)) n
range f byte n h = signed_fields f 8 n (omega arith)
range f int8 n h = signed_fields f 8 n (omega arith)
range f ubyte n h = unsigned_range 128 n (omega arith)
range f uint8 n h = unsigned_range 128 n (omega arith)
range f short n h = signed_fields f 16 n (omega arith)
range f int16 n h = signed_fields f 16 n (omega arith)
range f ushort n h = unsigned_range 32768 n (omega arith)
range f uint16 n h = unsigned_range 32768 n (omega arith)
range f int n h = signed_fields f 32 n (omega arith)
range f int32 n h = signed_fields f 32 n (omega arith)
range f uint n h = unsigned_range 2147483648 n (omega arith)
range f uint32 n h = unsigned_range 2147483648 n (omega arith)
range f long n h = cc
range f int64 n h = cc
range f ulong n h = cc
range f uint64 n h = cc

-- With strict integer types, the schema of an integer type of less than 64 bits accepts exactly the
-- numbers that its bit patterns stand for, in two's complement if the type is signed.
pub basic_type_to_js-range :
    (ctx : JsContext) (t : IntType) (n : ℤ)
    → ctx.strict_int_types ≡ true
    → ltb (bits t) 64 ≡ true
    → Accepts (basic_type_to_js ctx (int_type t)) n ↔ IsValue (is_unsigned t) (2 ^ (bits t - 1)) n
unfolding basic_type_to_js
basic_type_to_js-range ctx t n strict small =
    subst
      (λ s.
        Accepts (int_fields ctx.number_formats s t) n
        ↔ IsValue (is_unsigned t) (2 ^ (bits t - 1)) n)
      (sym strict) (range ctx.number_formats t n small)
