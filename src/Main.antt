-- ===== src/Main.antt =====
-- main.c: the arguments of the process, the image's file, and the runs of the virtual machine in a
-- build without the debugger. Only the prints are left out.
pub mod Laws
use sedona_vm_debug.Base.{
  ℕ, zero, suc, ◌+◌, ◌/◌, Bool, true, false, not, ◌||◌, List, [], ◌∷◌, ◌++◌, Option, none, some,
  ◌==◌, ltb, if◌then◌else◌, length, take, drop,
}
use sedona_vm_debug.Memory.{◌>>=◌, Outcome, done, undefined, out_of_fuel, Allocator}
use sedona_vm_debug.Vm.Machine.{Vm, Step, running, returned}
use sedona_vm_debug.Vm.Exec.Arith.{Fpu}
use sedona_vm_debug.Vm.Exec.Calls.{Natives}
use sedona_vm_debug.Vm.Regular.{run_regular, vm_run, vm_resume_method}
use sedona_vm_debug.Jdwp.Types.{same_str}
use sedona_vm_debug.Jdwp.Files.{Files}

-- "--?", "--ver", "--plat" and "--home=".
abbrev pub usage_option : List ℕ
usage_option = 45 ∷ 45 ∷ 63 ∷ []

abbrev pub version_option : List ℕ
version_option = 45 ∷ 45 ∷ 118 ∷ 101 ∷ 114 ∷ []

abbrev pub plat_option : List ℕ
plat_option = 45 ∷ 45 ∷ 112 ∷ 108 ∷ 97 ∷ 116 ∷ []

abbrev pub home_option : List ℕ
home_option = 45 ∷ 45 ∷ 104 ∷ 111 ∷ 109 ∷ 101 ∷ 61 ∷ []

-- What `main` does with its arguments: it prints and returns a code, or runs the machine. The
-- arguments of a run are `argv + (2 + optCount)`.
pub data Action : Type 0 where
  prints : ℕ → Action
  in_platform_mode : Action
  in_standalone_mode : List ℕ → List (List ℕ) → Action

-- The variables of the loop over the arguments.
pub record Arguments : Type 0 where
  pub run_as_platform : Bool
  pub filename : Option (List ℕ)
  pub opt_count : ℕ

abbrev pub first_filename : List ℕ → Option (List ℕ) → Option (List ℕ)
first_filename arg none = some arg
first_filename arg (some filename) = some filename

abbrev pub is_option : List ℕ → Bool
is_option [] = false
is_option (c ∷ arg) = c == 45

abbrev pub err_input_file_not_found : ℕ
err_input_file_not_found = 4

-- After the loop.
abbrev pub chosen_file : List (List ℕ) → ℕ → Option (List ℕ) → Action
chosen_file argv opt_count none = prints err_input_file_not_found
chosen_file argv opt_count (some filename) = in_standalone_mode filename (drop (2 + opt_count) argv)

unfoldable pub choose : List (List ℕ) → Arguments → Action
choose argv a =
    if a.run_as_platform then in_platform_mode else chosen_file argv a.opt_count a.filename

-- The loop. `chdir` says whether the call succeeds on a directory.
unfoldable pub parse_arguments :
    (List ℕ → Bool) → List (List ℕ) → List (List ℕ) → Arguments → Action
parse_arguments chdir argv [] a = choose argv a
parse_arguments chdir argv (arg ∷ args) a =
    let on_plat = parse_arguments chdir argv args (record a { run_as_platform = true }) in
    let on_home = parse_arguments chdir argv args (record a { opt_count = a.opt_count + 1 }) in
    let on_other = parse_arguments chdir argv args a in
    let on_file =
      parse_arguments chdir argv args (record a { filename = first_filename arg a.filename }) in
    if is_option arg
    then (if same_str arg usage_option
        then prints 0
        else if same_str arg version_option
        then prints 0
        else if same_str arg plat_option
        then on_plat
        else if same_str (take 7 arg) home_option
        then (if ltb (length arg) 8
            then prints 0
            else if chdir (drop 7 arg)
            then on_home
            else prints 0)
        else on_other)
    else on_file

-- `main` up to the run, with all of `argv`.
unfoldable pub main_arguments : (List ℕ → Bool) → List ℕ → List (List ℕ) → Action
main_arguments chdir exe args =
    parse_arguments chdir (exe ∷ args) args
      (record { run_as_platform = false; filename = none; opt_count = 0 })

abbrev pub err_malloc_image : ℕ
err_malloc_image = 1

abbrev pub err_malloc_stack : ℕ
err_malloc_stack = 2

abbrev pub err_cannot_read_input_file : ℕ
err_cannot_read_input_file = 5

-- An error, or what was made.
pub data Loaded : Type 0 where
  failed : ℕ → Loaded
  loaded : List ℕ → Loaded

-- The end of `loadFile`; more bytes than the block holds are undefined.
unfoldable pub load_into : List ℕ → ℕ → Option (List ℕ) → Outcome Loaded
load_into got size none = done (failed err_malloc_image)
load_into got size (some addr) =
    if ltb (length addr) (length got)
    then undefined
    else if length got == size
    then done (loaded (got ++ drop size addr))
    else done (failed err_cannot_read_input_file)

unfoldable pub load_file : Allocator → Files → List ℕ → Outcome Loaded
load_file mem files filename =
    if not (files.fopen filename)
    then done (failed err_input_file_not_found)
    else if not (files.fseek filename)
    then done (failed err_cannot_read_input_file)
    else (let size = files.ftell filename in
        load_into (files.fread filename size) size (mem.malloc size))

abbrev pub stack_max_size : ℕ
stack_max_size = 16384

abbrev pub with_stack : Option (List ℕ) → List ℕ → Loaded
with_stack none image = failed err_malloc_stack
with_stack (some block) image = loaded image

abbrev pub after_load : Allocator → Loaded → Loaded
after_load mem (failed err) = failed err
after_load mem (loaded image) = with_stack (mem.malloc stack_max_size) image

unfoldable pub common_vm_setup : Allocator → Files → List ℕ → Outcome Loaded
common_vm_setup mem files scode_file = do
  result ← load_file mem files scode_file
  done (after_load mem result)

-- What a run is given: the native methods, the unit for floats, whether the guards are compiled in,
-- where the image, the stack and the arguments stand in memory, and `malloc` for static data.
pub record Host : Type 0 where
  pub natives : Natives
  pub fpu : Fpu
  pub scode_debug : Bool
  pub place : List ℕ → Vm
  pub data_malloc : ℕ → Option ℕ
  pub stack : ℕ
  pub argument_cell : ℕ
  pub place_args : List (List ℕ) → ℕ

abbrev pub err_yield : ℕ
err_yield = 253

abbrev pub err_restart : ℕ
err_restart = 254

abbrev pub err_hibernate : ℕ
err_hibernate = 255

abbrev pub waits : ℕ → Bool
waits result = (result == err_hibernate) || (result == err_yield)

-- The result of `vm->call`: a machine that has not returned after the rounds needs more of them.
abbrev pub ended : Step → Outcome (ℕ × Vm)
ended (running vm) = out_of_fuel
ended (returned result vm) = done (result, vm)

module _ (host : Host) (rounds : ℕ) (args : List (List ℕ)) where
  unfoldable pub call : Step → Outcome (ℕ × Vm)
  call s = do
    s ←
        run_regular host.scode_debug host.natives host.fpu (host.stack + stack_max_size / 8) rounds
          s
    ended s

  unfoldable pub vm_run_result : List ℕ → Outcome (ℕ × Vm)
  vm_run_result image = call (
      vm_run host.data_malloc (length image) host.stack (host.place_args args) (length args)
        host.argument_cell (host.place image))

  -- The loop that resumes a machine which hibernates or yields, for a number of turns.
  unfoldable pub resume_loop : ℕ → ℕ → Vm → Outcome (ℕ × Vm)
  resume_loop zero result vm = if waits result then out_of_fuel else done (result, vm)
  resume_loop (suc turns) result vm =
      let resumed = (do
        (result, vm) ←
            call (
              vm_resume_method host.stack (host.place_args args) (length args) host.argument_cell
                vm)
        resume_loop turns result vm) in
      if waits result then resumed else done (result, vm)

  unfoldable pub run_image : ℕ → List ℕ → Outcome (ℕ × Vm)
  run_image turns image = do (result, vm) ← vm_run_result image; resume_loop turns result vm

-- The code that `runInStandaloneMode` returns.
abbrev pub standalone_code : ℕ × Vm → ℕ
standalone_code (result, vm) = if result == 0 then vm.assert_failures else result

abbrev pub standalone_loaded : Host → ℕ → ℕ → List (List ℕ) → Loaded → Outcome ℕ
standalone_loaded host rounds turns args (failed err) = done err
standalone_loaded host rounds turns args (loaded image) = do
  end ← run_image host rounds args turns image
  done (standalone_code end)

unfoldable pub run_in_standalone_mode :
    Allocator → Files → Host → ℕ → ℕ → List ℕ → List (List ℕ) → Outcome ℕ
run_in_standalone_mode mem files host rounds turns filename args = do
  result ← common_vm_setup mem files filename
  standalone_loaded host rounds turns args result

-- "kits.scode" and "app.sab".
abbrev pub platform_scode : List ℕ
platform_scode = 107 ∷ 105 ∷ 116 ∷ 115 ∷ 46 ∷ 115 ∷ 99 ∷ 111 ∷ 100 ∷ 101 ∷ []

abbrev pub platform_app : List ℕ
platform_app = 97 ∷ 112 ∷ 112 ∷ 46 ∷ 115 ∷ 97 ∷ 98 ∷ []

-- ".stage".
abbrev pub stage_suffix : List ℕ
stage_suffix = 46 ∷ 115 ∷ 116 ∷ 97 ∷ 103 ∷ 101 ∷ []

-- `checkStaged`, where `rename` says what the files are once one has taken the place of another.
unfoldable pub check_staged : (List ℕ → List ℕ → Files → Files) → List ℕ → Files → Files
check_staged rename filename files =
    let stage_name = filename ++ stage_suffix in
    if files.fopen stage_name then rename stage_name filename files else files

-- `runInPlatformMode`, for a number of starts; each loads the image again.
module _ (rename : List ℕ → List ℕ → Files → Files) (mem : Allocator) (host : Host)
    (rounds turns : ℕ) where
  abbrev pub platform_ended : Outcome ℕ → ℕ × Vm → Outcome ℕ
  platform_ended again (result, vm) = if result == err_restart then again else done result

  abbrev pub platform_loaded : Outcome ℕ → Loaded → Outcome ℕ
  platform_loaded again (failed err) = done err
  platform_loaded again (loaded image) = do
    end ← run_image host rounds (platform_app ∷ []) turns image
    platform_ended again end

  unfoldable pub run_in_platform_mode : ℕ → Files → Outcome ℕ
  run_in_platform_mode zero files = out_of_fuel
  run_in_platform_mode (suc starts) files =
      let files = check_staged rename platform_app (check_staged rename platform_scode files) in
      let again = run_in_platform_mode starts files in
      (do result ← common_vm_setup mem files platform_scode; platform_loaded again result)
