-- ===== src/Cpu/Opcode/Base.antt =====
-- src/BaseOpcodeTable.c: the table of the instructions of one byte, and the ticks; Base/Lower and
-- Base/Upper hold the functions of the entries.
mod Lower
mod Upper
use game_bloat.Prelude.{ℕ, List, [], ◌∷◌}
use game_bloat.Cpu.Opcode.{Opcode}
use game_bloat.Cpu.Opcode.Base.Lower.{base_opcodes_00, base_opcodes_40}
use game_bloat.Cpu.Opcode.Base.Upper.{base_opcodes_80, base_opcodes_c0}

abbrev pub base_opcode_table : List Opcode
base_opcode_table = base_opcodes_00 (base_opcodes_40 (base_opcodes_80 (base_opcodes_c0 [])))

abbrev pub base_opcode_ticks : List ℕ
base_opcode_ticks =
    4 ∷ 12 ∷ 8 ∷ 8 ∷ 4 ∷ 4 ∷ 8 ∷ 4 ∷ 20 ∷ 8 ∷ 8 ∷ 8 ∷ 4 ∷ 4 ∷ 8 ∷ 4 ∷ 4 ∷ 12 ∷ 8 ∷ 8 ∷ 4 ∷ 4 ∷ 8 ∷ 4
    ∷ 12 ∷ 8 ∷ 8 ∷ 8 ∷ 4 ∷ 4 ∷ 8 ∷ 4 ∷ 8 ∷ 12 ∷ 8 ∷ 8 ∷ 4 ∷ 4 ∷ 8 ∷ 4 ∷ 8 ∷ 8 ∷ 8 ∷ 8 ∷ 4 ∷ 4 ∷ 8
    ∷ 4 ∷ 8 ∷ 12 ∷ 8 ∷ 8 ∷ 12 ∷ 12 ∷ 12 ∷ 4 ∷ 8 ∷ 8 ∷ 8 ∷ 8 ∷ 4 ∷ 4 ∷ 8 ∷ 4 ∷ 4 ∷ 4 ∷ 4 ∷ 4 ∷ 4 ∷ 4
    ∷ 8 ∷ 4 ∷ 4 ∷ 4 ∷ 4 ∷ 4 ∷ 4 ∷ 4 ∷ 8 ∷ 4 ∷ 4 ∷ 4 ∷ 4 ∷ 4 ∷ 4 ∷ 4 ∷ 8 ∷ 4 ∷ 4 ∷ 4 ∷ 4 ∷ 4 ∷ 4 ∷ 4
    ∷ 8 ∷ 4 ∷ 4 ∷ 4 ∷ 4 ∷ 4 ∷ 4 ∷ 4 ∷ 8 ∷ 4 ∷ 4 ∷ 4 ∷ 4 ∷ 4 ∷ 4 ∷ 4 ∷ 8 ∷ 4 ∷ 8 ∷ 8 ∷ 8 ∷ 8 ∷ 8 ∷ 8
    ∷ 4 ∷ 8 ∷ 4 ∷ 4 ∷ 4 ∷ 4 ∷ 4 ∷ 4 ∷ 8 ∷ 4 ∷ 4 ∷ 4 ∷ 4 ∷ 4 ∷ 4 ∷ 4 ∷ 8 ∷ 4 ∷ 4 ∷ 4 ∷ 4 ∷ 4 ∷ 4 ∷ 4
    ∷ 8 ∷ 4 ∷ 4 ∷ 4 ∷ 4 ∷ 4 ∷ 4 ∷ 4 ∷ 8 ∷ 4 ∷ 4 ∷ 4 ∷ 4 ∷ 4 ∷ 4 ∷ 4 ∷ 8 ∷ 4 ∷ 4 ∷ 4 ∷ 4 ∷ 4 ∷ 4 ∷ 4
    ∷ 8 ∷ 4 ∷ 4 ∷ 4 ∷ 4 ∷ 4 ∷ 4 ∷ 4 ∷ 8 ∷ 4 ∷ 4 ∷ 4 ∷ 4 ∷ 4 ∷ 4 ∷ 4 ∷ 8 ∷ 4 ∷ 4 ∷ 4 ∷ 4 ∷ 4 ∷ 4 ∷ 4
    ∷ 8 ∷ 4 ∷ 8 ∷ 12 ∷ 12 ∷ 16 ∷ 12 ∷ 16 ∷ 8 ∷ 16 ∷ 8 ∷ 16 ∷ 12 ∷ 4 ∷ 12 ∷ 24 ∷ 8 ∷ 16 ∷ 8 ∷ 12 ∷ 12
    ∷ 0 ∷ 12 ∷ 16 ∷ 8 ∷ 16 ∷ 8 ∷ 16 ∷ 12 ∷ 0 ∷ 12 ∷ 0 ∷ 8 ∷ 16 ∷ 12 ∷ 12 ∷ 8 ∷ 0 ∷ 0 ∷ 16 ∷ 8 ∷ 16
    ∷ 16 ∷ 4 ∷ 16 ∷ 0 ∷ 0 ∷ 0 ∷ 8 ∷ 16 ∷ 12 ∷ 12 ∷ 8 ∷ 4 ∷ 0 ∷ 16 ∷ 8 ∷ 16 ∷ 12 ∷ 8 ∷ 16 ∷ 4 ∷ 0 ∷ 0
    ∷ 8 ∷ 16 ∷ []
