-- ===== src/Vm/Opcode.antt =====
-- svm/scode.h: the opcodes, in the order of their numbers, and the operand that each one dereferences.
use sedona_vm_debug.Base.{ℕ, List, [], ◌∷◌, Option, none, some, get_elem?}

pub data Opcode : Type 0 where
  nop load_im1 load_i0 load_i1 load_i2 load_i3 : Opcode
  load_i4 load_i5 load_int_u1 load_int_u2 load_l0 load_l1 : Opcode
  load_f0 load_f1 load_d0 load_d1 load_null load_null_bool : Opcode
  load_null_float load_null_double load_int load_float load_long load_double : Opcode
  load_str load_buf load_type load_slot load_define load_param0 : Opcode
  load_param1 load_param2 load_param3 load_param load_param_wide store_param : Opcode
  store_param_wide load_local0 load_local1 load_local2 load_local3 load_local4 : Opcode
  load_local5 load_local6 load_local7 load_local load_local_wide store_local0 : Opcode
  store_local1 store_local2 store_local3 store_local4 store_local5 store_local6 : Opcode
  store_local7 store_local store_local_wide int_eq int_not_eq int_gt : Opcode
  int_gt_eq int_lt int_lt_eq int_mul int_div int_mod : Opcode
  int_add int_sub int_or int_xor int_and int_not : Opcode
  int_neg int_shift_l int_shift_r int_inc int_dec long_eq : Opcode
  long_not_eq long_gt long_gt_eq long_lt long_lt_eq long_mul : Opcode
  long_div long_mod long_add long_sub long_or long_xor : Opcode
  long_and long_not long_neg long_shift_l long_shift_r float_eq : Opcode
  float_not_eq float_gt float_gt_eq float_lt float_lt_eq float_mul : Opcode
  float_div float_add float_sub float_neg double_eq double_not_eq : Opcode
  double_gt double_gt_eq double_lt double_lt_eq double_mul double_div : Opcode
  double_add double_sub double_neg int_to_float int_to_long int_to_double : Opcode
  long_to_int long_to_float long_to_double float_to_int float_to_long float_to_double : Opcode
  double_to_int double_to_long double_to_float obj_eq obj_not_eq eq_zero : Opcode
  not_eq_zero pop pop2 pop3 dup dup2 : Opcode
  dup_down2 dup_down3 dup2_down2 dup2_down3 jump jump_non_zero : Opcode
  jump_zero foreach jump_far jump_far_non_zero jump_far_zero foreach_far : Opcode
  jump_int_eq jump_int_not_eq jump_int_gt jump_int_gt_eq jump_int_lt jump_int_lt_eq : Opcode
  jump_far_int_eq jump_far_int_not_eq jump_far_int_gt jump_far_int_gt_eq jump_far_int_lt
        jump_far_int_lt_eq :
      Opcode
  load_data_addr load8_bit_field_u1 load8_bit_field_u2 load8_bit_field_u4 load8_bit_array
        store8_bit_field_u1 :
      Opcode
  store8_bit_field_u2 store8_bit_field_u4 store8_bit_array add8_bit_array load16_bit_field_u1
        load16_bit_field_u2 :
      Opcode
  load16_bit_field_u4 load16_bit_array store16_bit_field_u1 store16_bit_field_u2
        store16_bit_field_u4 store16_bit_array :
      Opcode
  add16_bit_array load32_bit_field_u1 load32_bit_field_u2 load32_bit_field_u4 load32_bit_array
        store32_bit_field_u1 :
      Opcode
  store32_bit_field_u2 store32_bit_field_u4 store32_bit_array add32_bit_array load64_bit_field_u1
        load64_bit_field_u2 :
      Opcode
  load64_bit_field_u4 load64_bit_array store64_bit_field_u1 store64_bit_field_u2
        store64_bit_field_u4 store64_bit_array :
      Opcode
  add64_bit_array load_ref_field_u1 load_ref_field_u2 load_ref_field_u4 load_ref_array
        store_ref_field_u1 :
      Opcode
  store_ref_field_u2 store_ref_field_u4 store_ref_array add_ref_array load_const_field_u1
        load_const_field_u2 :
      Opcode
  load_const_static load_const_array load_inline_field_u1 load_inline_field_u2 load_inline_field_u4
        load_param0_inline_field_u1 :
      Opcode
  load_param0_inline_field_u2 load_param0_inline_field_u4 load_data_inline_field_u1
        load_data_inline_field_u2 load_data_inline_field_u4 call :
      Opcode
  call_virtual call_native call_native_wide call_native_void return_void return_pop : Opcode
  return_pop_wide load_param0_call init_array init_virt init_comp size_of : Opcode
  assert switch meta_slot cast load_array_literal load_slot_id : Opcode

-- `NumOpcodes` opcodes; a byte from there on is no opcode.
opcode_table : List Opcode
opcode_table =
    Opcode.nop ∷ Opcode.load_im1 ∷ Opcode.load_i0 ∷ Opcode.load_i1 ∷ Opcode.load_i2 ∷ Opcode.load_i3
    ∷ Opcode.load_i4 ∷ Opcode.load_i5 ∷ Opcode.load_int_u1 ∷ Opcode.load_int_u2 ∷ Opcode.load_l0
    ∷ Opcode.load_l1 ∷ Opcode.load_f0 ∷ Opcode.load_f1 ∷ Opcode.load_d0 ∷ Opcode.load_d1
    ∷ Opcode.load_null ∷ Opcode.load_null_bool ∷ Opcode.load_null_float ∷ Opcode.load_null_double
    ∷ Opcode.load_int ∷ Opcode.load_float ∷ Opcode.load_long ∷ Opcode.load_double ∷ Opcode.load_str
    ∷ Opcode.load_buf ∷ Opcode.load_type ∷ Opcode.load_slot ∷ Opcode.load_define
    ∷ Opcode.load_param0 ∷ Opcode.load_param1 ∷ Opcode.load_param2 ∷ Opcode.load_param3
    ∷ Opcode.load_param ∷ Opcode.load_param_wide ∷ Opcode.store_param ∷ Opcode.store_param_wide
    ∷ Opcode.load_local0 ∷ Opcode.load_local1 ∷ Opcode.load_local2 ∷ Opcode.load_local3
    ∷ Opcode.load_local4 ∷ Opcode.load_local5 ∷ Opcode.load_local6 ∷ Opcode.load_local7
    ∷ Opcode.load_local ∷ Opcode.load_local_wide ∷ Opcode.store_local0 ∷ Opcode.store_local1
    ∷ Opcode.store_local2 ∷ Opcode.store_local3 ∷ Opcode.store_local4 ∷ Opcode.store_local5
    ∷ Opcode.store_local6 ∷ Opcode.store_local7 ∷ Opcode.store_local ∷ Opcode.store_local_wide
    ∷ Opcode.int_eq ∷ Opcode.int_not_eq ∷ Opcode.int_gt ∷ Opcode.int_gt_eq ∷ Opcode.int_lt
    ∷ Opcode.int_lt_eq ∷ Opcode.int_mul ∷ Opcode.int_div ∷ Opcode.int_mod ∷ Opcode.int_add
    ∷ Opcode.int_sub ∷ Opcode.int_or ∷ Opcode.int_xor ∷ Opcode.int_and ∷ Opcode.int_not
    ∷ Opcode.int_neg ∷ Opcode.int_shift_l ∷ Opcode.int_shift_r ∷ Opcode.int_inc ∷ Opcode.int_dec
    ∷ Opcode.long_eq ∷ Opcode.long_not_eq ∷ Opcode.long_gt ∷ Opcode.long_gt_eq ∷ Opcode.long_lt
    ∷ Opcode.long_lt_eq ∷ Opcode.long_mul ∷ Opcode.long_div ∷ Opcode.long_mod ∷ Opcode.long_add
    ∷ Opcode.long_sub ∷ Opcode.long_or ∷ Opcode.long_xor ∷ Opcode.long_and ∷ Opcode.long_not
    ∷ Opcode.long_neg ∷ Opcode.long_shift_l ∷ Opcode.long_shift_r ∷ Opcode.float_eq
    ∷ Opcode.float_not_eq ∷ Opcode.float_gt ∷ Opcode.float_gt_eq ∷ Opcode.float_lt
    ∷ Opcode.float_lt_eq ∷ Opcode.float_mul ∷ Opcode.float_div ∷ Opcode.float_add ∷ Opcode.float_sub
    ∷ Opcode.float_neg ∷ Opcode.double_eq ∷ Opcode.double_not_eq ∷ Opcode.double_gt
    ∷ Opcode.double_gt_eq ∷ Opcode.double_lt ∷ Opcode.double_lt_eq ∷ Opcode.double_mul
    ∷ Opcode.double_div ∷ Opcode.double_add ∷ Opcode.double_sub ∷ Opcode.double_neg
    ∷ Opcode.int_to_float ∷ Opcode.int_to_long ∷ Opcode.int_to_double ∷ Opcode.long_to_int
    ∷ Opcode.long_to_float ∷ Opcode.long_to_double ∷ Opcode.float_to_int ∷ Opcode.float_to_long
    ∷ Opcode.float_to_double ∷ Opcode.double_to_int ∷ Opcode.double_to_long ∷ Opcode.double_to_float
    ∷ Opcode.obj_eq ∷ Opcode.obj_not_eq ∷ Opcode.eq_zero ∷ Opcode.not_eq_zero ∷ Opcode.pop
    ∷ Opcode.pop2 ∷ Opcode.pop3 ∷ Opcode.dup ∷ Opcode.dup2 ∷ Opcode.dup_down2 ∷ Opcode.dup_down3
    ∷ Opcode.dup2_down2 ∷ Opcode.dup2_down3 ∷ Opcode.jump ∷ Opcode.jump_non_zero ∷ Opcode.jump_zero
    ∷ Opcode.foreach ∷ Opcode.jump_far ∷ Opcode.jump_far_non_zero ∷ Opcode.jump_far_zero
    ∷ Opcode.foreach_far ∷ Opcode.jump_int_eq ∷ Opcode.jump_int_not_eq ∷ Opcode.jump_int_gt
    ∷ Opcode.jump_int_gt_eq ∷ Opcode.jump_int_lt ∷ Opcode.jump_int_lt_eq ∷ Opcode.jump_far_int_eq
    ∷ Opcode.jump_far_int_not_eq ∷ Opcode.jump_far_int_gt ∷ Opcode.jump_far_int_gt_eq
    ∷ Opcode.jump_far_int_lt ∷ Opcode.jump_far_int_lt_eq ∷ Opcode.load_data_addr
    ∷ Opcode.load8_bit_field_u1 ∷ Opcode.load8_bit_field_u2 ∷ Opcode.load8_bit_field_u4
    ∷ Opcode.load8_bit_array ∷ Opcode.store8_bit_field_u1 ∷ Opcode.store8_bit_field_u2
    ∷ Opcode.store8_bit_field_u4 ∷ Opcode.store8_bit_array ∷ Opcode.add8_bit_array
    ∷ Opcode.load16_bit_field_u1 ∷ Opcode.load16_bit_field_u2 ∷ Opcode.load16_bit_field_u4
    ∷ Opcode.load16_bit_array ∷ Opcode.store16_bit_field_u1 ∷ Opcode.store16_bit_field_u2
    ∷ Opcode.store16_bit_field_u4 ∷ Opcode.store16_bit_array ∷ Opcode.add16_bit_array
    ∷ Opcode.load32_bit_field_u1 ∷ Opcode.load32_bit_field_u2 ∷ Opcode.load32_bit_field_u4
    ∷ Opcode.load32_bit_array ∷ Opcode.store32_bit_field_u1 ∷ Opcode.store32_bit_field_u2
    ∷ Opcode.store32_bit_field_u4 ∷ Opcode.store32_bit_array ∷ Opcode.add32_bit_array
    ∷ Opcode.load64_bit_field_u1 ∷ Opcode.load64_bit_field_u2 ∷ Opcode.load64_bit_field_u4
    ∷ Opcode.load64_bit_array ∷ Opcode.store64_bit_field_u1 ∷ Opcode.store64_bit_field_u2
    ∷ Opcode.store64_bit_field_u4 ∷ Opcode.store64_bit_array ∷ Opcode.add64_bit_array
    ∷ Opcode.load_ref_field_u1 ∷ Opcode.load_ref_field_u2 ∷ Opcode.load_ref_field_u4
    ∷ Opcode.load_ref_array ∷ Opcode.store_ref_field_u1 ∷ Opcode.store_ref_field_u2
    ∷ Opcode.store_ref_field_u4 ∷ Opcode.store_ref_array ∷ Opcode.add_ref_array
    ∷ Opcode.load_const_field_u1 ∷ Opcode.load_const_field_u2 ∷ Opcode.load_const_static
    ∷ Opcode.load_const_array ∷ Opcode.load_inline_field_u1 ∷ Opcode.load_inline_field_u2
    ∷ Opcode.load_inline_field_u4 ∷ Opcode.load_param0_inline_field_u1
    ∷ Opcode.load_param0_inline_field_u2 ∷ Opcode.load_param0_inline_field_u4
    ∷ Opcode.load_data_inline_field_u1 ∷ Opcode.load_data_inline_field_u2
    ∷ Opcode.load_data_inline_field_u4 ∷ Opcode.call ∷ Opcode.call_virtual ∷ Opcode.call_native
    ∷ Opcode.call_native_wide ∷ Opcode.call_native_void ∷ Opcode.return_void ∷ Opcode.return_pop
    ∷ Opcode.return_pop_wide ∷ Opcode.load_param0_call ∷ Opcode.init_array ∷ Opcode.init_virt
    ∷ Opcode.init_comp ∷ Opcode.size_of ∷ Opcode.assert ∷ Opcode.switch ∷ Opcode.meta_slot
    ∷ Opcode.cast ∷ Opcode.load_array_literal ∷ Opcode.load_slot_id ∷ []

unfoldable pub decode : ℕ → Option Opcode
unfolding opcode_table
decode byte = get_elem? opcode_table byte

-- `OpcodePointerOffsets`: how far below the top of the stack the pointer stands; `none` is -1.
unfoldable pub pointer_offset : Opcode → Option ℕ
pointer_offset Opcode.load8_bit_field_u1 = some 0
pointer_offset Opcode.load8_bit_field_u2 = some 0
pointer_offset Opcode.load8_bit_field_u4 = some 0
pointer_offset Opcode.load8_bit_array = some 1
pointer_offset Opcode.store8_bit_field_u1 = some 1
pointer_offset Opcode.store8_bit_field_u2 = some 1
pointer_offset Opcode.store8_bit_field_u4 = some 1
pointer_offset Opcode.store8_bit_array = some 2
pointer_offset Opcode.add8_bit_array = some 1
pointer_offset Opcode.load16_bit_field_u1 = some 0
pointer_offset Opcode.load16_bit_field_u2 = some 0
pointer_offset Opcode.load16_bit_field_u4 = some 0
pointer_offset Opcode.load16_bit_array = some 1
pointer_offset Opcode.store16_bit_field_u1 = some 1
pointer_offset Opcode.store16_bit_field_u2 = some 1
pointer_offset Opcode.store16_bit_field_u4 = some 1
pointer_offset Opcode.store16_bit_array = some 2
pointer_offset Opcode.add16_bit_array = some 1
pointer_offset Opcode.load32_bit_field_u1 = some 0
pointer_offset Opcode.load32_bit_field_u2 = some 0
pointer_offset Opcode.load32_bit_field_u4 = some 0
pointer_offset Opcode.load32_bit_array = some 1
pointer_offset Opcode.store32_bit_field_u1 = some 1
pointer_offset Opcode.store32_bit_field_u2 = some 1
pointer_offset Opcode.store32_bit_field_u4 = some 1
pointer_offset Opcode.store32_bit_array = some 2
pointer_offset Opcode.add32_bit_array = some 1
pointer_offset Opcode.load64_bit_field_u1 = some 0
pointer_offset Opcode.load64_bit_field_u2 = some 0
pointer_offset Opcode.load64_bit_field_u4 = some 0
pointer_offset Opcode.load64_bit_array = some 1
pointer_offset Opcode.store64_bit_field_u1 = some 2
pointer_offset Opcode.store64_bit_field_u2 = some 2
pointer_offset Opcode.store64_bit_field_u4 = some 2
pointer_offset Opcode.store64_bit_array = some 3
pointer_offset Opcode.add64_bit_array = some 1
pointer_offset Opcode.load_ref_field_u1 = some 0
pointer_offset Opcode.load_ref_field_u2 = some 0
pointer_offset Opcode.load_ref_field_u4 = some 0
pointer_offset Opcode.load_ref_array = some 1
pointer_offset Opcode.store_ref_field_u1 = some 1
pointer_offset Opcode.store_ref_field_u2 = some 1
pointer_offset Opcode.store_ref_field_u4 = some 1
pointer_offset Opcode.store_ref_array = some 2
pointer_offset Opcode.add_ref_array = some 1
pointer_offset Opcode.load_const_field_u1 = some 0
pointer_offset Opcode.load_const_field_u2 = some 0
pointer_offset Opcode.load_const_array = some 1
pointer_offset Opcode.load_inline_field_u1 = some 0
pointer_offset Opcode.load_inline_field_u2 = some 0
pointer_offset Opcode.load_inline_field_u4 = some 0
pointer_offset _ = none
