-- ===== src/Svm/Types.antt =====
-- svm-decode/src/deserialize.rs: the types that describe binary data, and the values read from it.
-- `Vec` of a type that holds itself is a data type of its own in the block.
use cherry_core.Base.{ℕ, suc, String, Bool, ℤ}

mutual
  pub data DynType : Type 0 where
    i8 i16 i32 i64 i128 u8 u16 u32 u64 u128 bool : DynType
    fixed_array : DynType → ℕ → DynType
    array : DynType → DynType
    struct : Fields → DynType
    enum : Variants → DynType
    option : DynType → DynType

  -- Vec<(String, DynType)>
  pub data Fields : Type 0 where
    no_fields : Fields
    field : String → DynType → Fields → Fields

  -- Vec<(String, Option<DynType>)>
  pub data Variants : Type 0 where
    no_variants : Variants
    unit_variant : String → Variants → Variants
    variant : String → DynType → Variants → Variants

mutual
  pub data DynValue : Type 0 where
    i8 i16 i32 i64 i128 : ℤ → DynValue
    u8 u16 u32 u64 u128 : ℕ → DynValue
    bool : Bool → DynValue
    array : Values → DynValue
    struct : NamedValues → DynValue
    enum : String → OptValue → DynValue
    option : OptValue → DynValue

  -- Vec<DynValue>
  pub data Values : Type 0 where
    no_values : Values
    value : DynValue → Values → Values

  -- Vec<(String, DynValue)>
  pub data NamedValues : Type 0 where
    no_named : NamedValues
    named : String → DynValue → NamedValues → NamedValues

  -- Option<Box<DynValue>>
  pub data OptValue : Type 0 where
    no_value : OptValue
    some_value : DynValue → OptValue

-- `variants.len()`
abbrev pub count_variants : Variants → ℕ
count_variants no_variants = 0
count_variants (unit_variant _ vs) = suc (count_variants vs)
count_variants (variant _ _ vs) = suc (count_variants vs)

pub record ParamInput : Type 0 where
  pub name : String
  pub param_type : DynType
