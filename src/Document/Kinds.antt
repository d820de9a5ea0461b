-- ===== src/Document/Kinds.antt =====
-- document.rs: the enumerations.

pub data ReturnDocument : Type 0 where
  none before after : ReturnDocument

pub data FieldType : Type 0 where
  string_type number_type integer_type boolean_type object_type array_type null_type : FieldType
