-- ===== src/Bytecode/Mnemonic.antt =====
-- `Mnemonic` of shared/bytecode/ir.h.
pub data Mnemonic : Type 0 where
  unknown break cjeq cjne cjlt cjgt cjle cjge : Mnemonic
  jump move move_abs add sub mul div string : Mnemonic
  substr instr length uppercase call return exit clear : Mnemonic
  clear_range push pop swap fill sort lookup note : Mnemonic
  point save save_fields restore release make_format define_field set_attribute : Mnemonic
  transfer link navigate set_function error goto_depending_on sound set_sound : Mnemonic
  show_screen upload download trig_func send : Mnemonic

unfoldable pub Mnemonic-discrete : Discrete Mnemonic
Mnemonic-discrete = hlevel
