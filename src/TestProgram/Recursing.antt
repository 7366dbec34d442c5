-- ===== src/TestProgram/Recursing.antt =====
-- What the sample program (test-program/src) does to its account, at any depth of calls.
use bokken.Prelude.{ℕ, zero, suc, ◌+◌, ◌*◌, ◌^◌, ◌<◌, List, [], ◌∷◌, ◌++◌, Bytes, to_le_bytes}
use bokken.Prelude.Result.{Result}
use bokken.TestProgram.{
  TestProgramInstruction, hello_world, increment_number, recurse_then_increment_number,
  TestProgramState, Line, ix_recurse_then_increment_number, cur_depth_is, World, Stop, returned,
}

-- The log of the nested calls, down to depth 0.
abbrev pub trail : ℕ → List Line
trail zero = ix_recurse_then_increment_number ∷ cur_depth_is 0 ∷ []
trail (suc d) = ix_recurse_then_increment_number ∷ cur_depth_is (suc d) ∷ trail d

abbrev pub incremented : TestProgramState → ℕ → TestProgramState
incremented s amount = record {
  property1 = s.property1 + amount;
  property2 = s.property2 + amount * 2;
}

-- The bytes of a state.
abbrev pub bytes_of : TestProgramState → Bytes
bytes_of s = to_le_bytes 8 s.property1 ++ to_le_bytes 8 s.property2

-- A log behind which lines are said one by one.
abbrev said : List Line → List Line → List Line
said logs [] = logs
said logs (line ∷ lines) = said (logs ++ line ∷ []) lines

-- A run whose error has become a panic of the caller.
abbrev pub in_caller : Result Stop (Unit {0}) × World → Result Stop (Unit {0}) × World
in_caller p = (returned p.0, p.1)

-- What the types of the source hold.
abbrev pub InRange : TestProgramInstruction → Type 0
InRange hello_world = Unit {0}
InRange (increment_number amount) = amount < 2 ^ 64
InRange (recurse_then_increment_number call_depth amount) = (call_depth < 2 ^ 8) × (amount < 2 ^ 64)
