-- ===== src/Tests/Startup.antt =====
-- The theorems on files, on the types at the start, on arguments and on replies at concrete inputs.
use sedona_vm_debug.Base.{
  ℕ, ◌≡◌, refl, arith, true, List, [], ◌∷◌, map, some, none, big_endian4, get_elem?, ◌-◌, Option,
}
use sedona_vm_debug.Memory.{◌>>=◌, done, to_size}
use sedona_vm_debug.Packet.Buffer.{write_u4, read_u4_buff, read_u4, Packet}
use sedona_vm_debug.Packet.Ids.{read_threadid}
use sedona_vm_debug.Packet.Append.{write_u4-Appends}
use sedona_vm_debug.Packet.Header.{read_id}
use sedona_vm_debug.Jdwp.Types.{Types, init_types}
use sedona_vm_debug.Jdwp.Files.{split, cast_to_int, count_char, Files}
use sedona_vm_debug.Jdwp.Files.Laws.{
  IsPieces, split-IsPieces, split-join, cast_to_int-value, digit_char,
}
use sedona_vm_debug.Jdwp.Bases.{main_class}
use sedona_vm_debug.Jdwp.Bases.Laws.{HidesMain, main_class-HidesMain}
use sedona_vm_debug.Jdwp.Session.{Session, new_reply, jdwp_send}
use sedona_vm_debug.Jdwp.Session.Replies.{Replies, new_reply-Replies}
use sedona_vm_debug.Jdwp.Command.Replies.{on_send_cs_tr-Replies}
use sedona_vm_debug.Jdwp.Command.Machine.{thread_group_sub_tgid}
use sedona_vm_debug.Jdwp.Command.Threads.{
  on_send_cs_tr_frame_count, on_send_cs_tr_suspend_count, on_send_cs_tr_thread_group,
}
use sedona_vm_debug.Main.{main_arguments, in_standalone_mode, Host}
use sedona_vm_debug.Vm.Frames.{init_frames}
use sedona_vm_debug.Tests.Machine.{machine, no_natives, whole_fpu}
use sedona_vm_debug.Main.Laws.{home, IsDirectory, main_arguments-in_standalone_mode}
use sedona_vm_debug.Tests.{zeros}
use sedona_vm_debug.Tests.Debugger.{env, session, events, with_id}

-- "a,,b".
split-IsPieces_example :
    (ps : List (List ℕ)) × (split (97 ∷ 44 ∷ 44 ∷ 98 ∷ []) 44 ≡ done ps)
    × IsPieces 44 (97 ∷ 44 ∷ 44 ∷ 98 ∷ []) ps
split-IsPieces_example = split-IsPieces (97 ∷ 44 ∷ 44 ∷ 98 ∷ []) 44

split-join_example : split (97 ∷ 98 ∷ 44 ∷ 99 ∷ []) 44 ≡ done ((97 ∷ 98 ∷ []) ∷ (99 ∷ []) ∷ [])
unfolding count_char
split-join_example = split-join 44 (97 ∷ 98 ∷ []) ((99 ∷ []) ∷ []) (refl, (refl, tt))

cast_to_int-value_example : cast_to_int (map digit_char (1 ∷ 5 ∷ 3 ∷ 7 ∷ [])) ≡ to_size 1537
cast_to_int-value_example = cast_to_int-value (1 ∷ 5 ∷ 3 ∷ 7 ∷ [])

main_class-HidesMain_example :
    (t : _) × (after : Types) × (main_class init_types ≡ done (t, after)) × HidesMain t after
unfolding init_types
main_class-HidesMain_example = main_class-HidesMain init_types (omega arith) (omega arith)

-- "svm --home=d app -".
enters_d : IsDirectory (λ dir. true) (100 ∷ [])
enters_d = record { named = omega arith; entered = refl }

main_arguments-in_standalone_mode_example :
    main_arguments (λ dir. true) (115 ∷ []) (home (100 ∷ []) ∷ (97 ∷ []) ∷ (98 ∷ []) ∷ [])
    ≡ in_standalone_mode (97 ∷ []) ((98 ∷ []) ∷ [])
main_arguments-in_standalone_mode_example =
    main_arguments-in_standalone_mode (λ dir. true) (115 ∷ []) ((100 ∷ []) ∷ []) (97 ∷ [])
      ((98 ∷ []) ∷ []) (enters_d, tt) refl (refl, tt)

new_reply-Replies_example : Replies env.mem 5 (big_endian4 7) (session events) (
    new_reply env (session events) 4 >>= λ p.
    write_u4 env.mem p 7 >>= λ q. jdwp_send q (session events))
new_reply-Replies_example =
    new_reply-Replies env (session events) 5 4 (big_endian4 7) (zeros 15)
      (λ p. write_u4 env.mem p 7) with_id (omega arith) refl
      (λ p valid. write_u4-Appends env.mem p 7 valid)

-- The command for the suspend count of the application's thread, with the identifier 5.
abbrev thread_command : Packet
thread_command = record {
  contents = 0 ∷ 0 ∷ 0 ∷ 15 ∷ 0 ∷ 0 ∷ 0 ∷ 5 ∷ 0 ∷ 11 ∷ 12 ∷ 0 ∷ 0 ∷ 0 ∷ 1 ∷ [];
  offset = 11;
  length = 15;
}

abbrev thread_read : Packet
thread_read = record thread_command { offset = 15 }

reads_thread : read_threadid thread_command ≡ done (1, thread_read)
unfolding read_threadid read_u4 read_u4_buff
reads_thread = refl

keeps_id : read_id thread_read ≡ done 5
unfolding read_id read_u4_buff
keeps_id = refl

abbrev asked : Session
asked = record (session events) { command = thread_command }

on_send_cs_tr-Replies_example :
    Replies env.mem 5
      (big_endian4 0)
      (record asked { command = thread_read })
      (on_send_cs_tr_suspend_count env asked)
    × Replies env.mem 5
        (big_endian4 0)
        (record asked { command = thread_read })
        (on_send_cs_tr_frame_count env asked)
    × Replies env.mem 5
        (big_endian4 thread_group_sub_tgid)
        (record asked { command = thread_read })
        (on_send_cs_tr_thread_group env asked)
unfolding init_frames
on_send_cs_tr-Replies_example =
    on_send_cs_tr-Replies env asked 5 thread_read (zeros 15) reads_thread keeps_id refl

-- An image of 36 bytes whose main method, of two parameters, returns zero.
abbrev image : List ℕ
image =
    7 ∷ 186 ∷ 208 ∷ 94 ∷ 1 ∷ 5 ∷ 4 ∷ 8 ∷ 36 ∷ 0 ∷ 0 ∷ 0 ∷ 4 ∷ 0 ∷ 0 ∷ 0 ∷ 8 ∷ 0 ∷ 0 ∷ 0 ∷ 0 ∷ 0 ∷ 0
    ∷ 0 ∷ 0 ∷ 0 ∷ 0 ∷ 0 ∷ 0 ∷ 0 ∷ 0 ∷ 0 ∷ 2 ∷ 0 ∷ 2 ∷ 227 ∷ []

abbrev byte_or_zero : Option ℕ → ℕ
byte_or_zero none = 0
byte_or_zero (some b) = b

abbrev image_files : Files
image_files = record {
  fopen = λ name. true;
  fseek = λ name. true;
  ftell = λ name. 36;
  fread = λ name size. image;
}

-- The image stands at the address 64, the static data behind 8192, and the stack from the cell 10.
abbrev host : Host
host = record {
  natives = no_natives;
  fpu = whole_fpu;
  scode_debug = true;
  place = λ bytes. record machine { memory = λ a. byte_or_zero (get_elem? bytes (a - 64)) };
  data_malloc = λ n. some 8192;
  stack = 10;
  argument_cell = 0;
  place_args = λ args. 20000;
}
