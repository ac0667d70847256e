-- ===== src/Bytecode/Opcodes/System.antt =====
-- The opcodes of shared/bytecode/opcodes.h for keys, procedures, persistence and the rest, with the
-- flag of the complex form.
use Prim.Native.Nat.{ℕ}

abbrev pub op_start : ℕ
op_start = 0x40

abbrev pub op_stop : ℕ
op_stop = 0x41

abbrev pub op_set_key : ℕ
op_set_key = 0x42

abbrev pub op_set_key_pgm : ℕ
op_set_key_pgm = 0x43

abbrev pub op_set_func : ℕ
op_set_func = 0x44

abbrev pub op_set_func_pgm : ℕ
op_set_func_pgm = 0x45

abbrev pub op_call : ℕ
op_call = 0x46

abbrev pub op_link : ℕ
op_link = 0x47

abbrev pub op_return : ℕ
op_return = 0x48

abbrev pub op_transfer : ℕ
op_transfer = 0x49

abbrev pub op_exit : ℕ
op_exit = 0x4A

abbrev pub op_go_dep : ℕ
op_go_dep = 0x4B

abbrev pub op_error : ℕ
op_error = 0x4C

abbrev pub op_save : ℕ
op_save = 0x4D

abbrev pub op_save_range : ℕ
op_save_range = 0x4E

abbrev pub op_restore : ℕ
op_restore = 0x4F

abbrev pub op_release : ℕ
op_release = 0x50

abbrev pub op_clear : ℕ
op_clear = 0x51

abbrev pub op_clear_range : ℕ
op_clear_range = 0x52

abbrev pub op_note : ℕ
op_note = 0x53

abbrev pub op_point : ℕ
op_point = 0x54

abbrev pub op_sound : ℕ
op_sound = 0x55

abbrev pub op_sound_args : ℕ
op_sound_args = 0x56

abbrev pub op_sort : ℕ
op_sort = 0x57

abbrev pub op_lookup : ℕ
op_lookup = 0x58

abbrev pub op_trig_func : ℕ
op_trig_func = 0x5A

abbrev pub op_move_block : ℕ
op_move_block = 0x62

abbrev pub op_return_rc : ℕ
op_return_rc = 0x63

abbrev pub op_exit_rc : ℕ
op_exit_rc = 0x64

abbrev pub op_refresh : ℕ
op_refresh = 0x65

abbrev pub op_erase : ℕ
op_erase = 0x66

abbrev pub op_set_cursor : ℕ
op_set_cursor = 0x67

abbrev pub op_open_err_win2 : ℕ
op_open_err_win2 = 0x6A

abbrev pub op_set_func2 : ℕ
op_set_func2 = 0x6C

abbrev pub op_open_err_win3 : ℕ
op_open_err_win3 = 0x6D

abbrev pub op_delete : ℕ
op_delete = 0x6E

abbrev pub op_complex : ℕ
op_complex = 0x80
