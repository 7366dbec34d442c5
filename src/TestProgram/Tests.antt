-- ===== src/TestProgram/Tests.antt =====
-- A concrete run of the sample program.
use bokken.Prelude.{Option, none, some, [], ◌∷◌, ◌++◌, Bytes, to_le_bytes}
use bokken.TestProgram.{
  TestProgramInstruction, hello_world, increment_number, recurse_then_increment_number, World,
}

-- One entry for each number.
abbrev encode : TestProgramInstruction → Bytes
encode hello_world = []
encode (increment_number amount) = amount ∷ []
encode (recurse_then_increment_number call_depth amount) = call_depth ∷ amount ∷ []

abbrev decode : Bytes → Option TestProgramInstruction
decode [] = some hello_world
decode (amount ∷ []) = some (increment_number amount)
decode (call_depth ∷ amount ∷ []) = some (recurse_then_increment_number call_depth amount)
decode (a ∷ b ∷ c ∷ bytes) = none

-- An account with the properties 5 and 6, and one that is left alone.
abbrev a_world : World
a_world = record {
  accounts = (7, to_le_bytes 8 5 ++ to_le_bytes 8 6) ∷ (8, 1 ∷ []) ∷ [];
  logs = [];
}
