-- ===== src/Main/Laws.antt =====
-- main.c: what the arguments choose and what the codes mean.
use sedona_vm_debug.Base.{
  ℕ, suc, ◌+◌, ◌≤◌, ◌≡◌, ◌≢◌, refl, ap, ◌∙◌, arith, Bool, true, false, List, [], ◌∷◌, ◌++◌, map,
  All, none, some, length, drop, ltb-false,
}
use sedona_vm_debug.Memory.{done, Allocator}
use sedona_vm_debug.Vm.Machine.{Vm}
use sedona_vm_debug.Jdwp.Files.{Files}
use sedona_vm_debug.Main.{
  in_standalone_mode, is_option, home_option, choose, parse_arguments, main_arguments, Loaded,
  failed, loaded, Host, run_image, common_vm_setup,
}

abbrev pub home : List ℕ → List ℕ
home dir = home_option ++ dir

-- A directory that `chdir` accepts.
pub record IsDirectory (chdir : List ℕ → Bool) (dir : List ℕ) : Type 0 where
  pub named : 1 ≤ length dir
  pub entered : chdir dir ≡ true

abbrev pub IsPlain : List ℕ → Type 0
IsPlain arg = is_option arg ≡ false

module _ (chdir : List ℕ → Bool) (argv : List (List ℕ)) where
  parse-args :
      (args : List (List ℕ)) (plat : Bool) (file : List ℕ) (n : ℕ)
      → All IsPlain args
      → parse_arguments chdir argv args
          (record { run_as_platform = plat; filename = some file; opt_count = n })
        ≡ choose argv (record { run_as_platform = plat; filename = some file; opt_count = n })
  unfolding parse_arguments
  parse-args [] plat file n h = refl
  parse-args (arg ∷ args) plat file n (h, hs) = rw h (parse-args args plat file n hs)

  parse-home :
      (dir : List ℕ) (args : List (List ℕ)) (n : ℕ)
      → IsDirectory chdir dir
      → parse_arguments chdir argv
          (home dir ∷ args)
          (record { run_as_platform = false; filename = none; opt_count = n })
        ≡ parse_arguments chdir argv args
            (record { run_as_platform = false; filename = none; opt_count = n + 1 })
  unfolding parse_arguments
  parse-home dir args n d =
      let long = ltb-false (suc (suc (suc (suc (suc (suc (suc (length dir)))))))) 8 (omega arith) in
      rw (long, d.entered) refl

  parse-homes :
      (dirs : List (List ℕ)) (rest : List (List ℕ)) (n m : ℕ)
      → m ≡ n + length dirs
      → All (IsDirectory chdir) dirs
      → parse_arguments chdir argv
          (map home dirs ++ rest)
          (record { run_as_platform = false; filename = none; opt_count = n })
        ≡ parse_arguments chdir argv rest
            (record { run_as_platform = false; filename = none; opt_count = m })
  parse-homes [] rest n m count h =
      let same : n ≡ m = omega arith in
      ap
        (λ k.
          parse_arguments chdir argv rest
            (record { run_as_platform = false; filename = none; opt_count = k }))
        same
  parse-homes (dir ∷ dirs) rest n m count (h, hs) =
      parse-home dir (map home dirs ++ rest) n h ∙ parse-homes dirs rest (n + 1) m (omega arith) hs

  parse-file :
      (file : List ℕ) (args : List (List ℕ)) (n : ℕ)
      → IsPlain file
      → All IsPlain args
      → parse_arguments chdir argv
          (file ∷ args)
          (record { run_as_platform = false; filename = none; opt_count = n })
        ≡ in_standalone_mode file (drop (2 + n) argv)
  unfolding parse_arguments choose
  parse-file file args n h hs = rw h (parse-args args false file n hs)

drop-homes :
    (dirs : List (List ℕ)) (exe file : List ℕ) (args : List (List ℕ))
    → drop (2 + length dirs) (exe ∷ (map home dirs ++ (file ∷ args))) ≡ args
drop-homes dirs exe file args =
    ap (λ k. drop k (exe ∷ (map home dirs ++ (file ∷ args)))) (two (length dirs)) ∙ behind dirs
  where
    two : (n : ℕ) → 2 + n ≡ suc (suc n)
    two n = omega arith

    behind :
        (dirs : List (List ℕ)) → drop (suc (length dirs)) (map home dirs ++ (file ∷ args)) ≡ args
    behind [] = refl
    behind (dir ∷ dirs) = behind dirs

-- Behind options for directories that can be entered, the first argument is the image's file and
-- the machine is given the arguments behind it, all of them, if none begins with a dash.
pub main_arguments-in_standalone_mode :
    (chdir : List ℕ → Bool) (exe : List ℕ) (dirs : List (List ℕ)) (file : List ℕ)
    (args : List (List ℕ))
    → All (IsDirectory chdir) dirs
    → IsPlain file
    → All IsPlain args
    → main_arguments chdir exe (map home dirs ++ (file ∷ args)) ≡ in_standalone_mode file args
unfolding main_arguments
main_arguments-in_standalone_mode chdir exe dirs file args h plain plains =
    let argv = exe ∷ (map home dirs ++ (file ∷ args)) in
    parse-homes chdir argv dirs (file ∷ args) 0 (length dirs) (omega arith) h
    ∙ parse-file chdir argv file args (length dirs) plain plains
    ∙ ap (in_standalone_mode file) (drop-homes dirs exe file args)

-- A code of zero: the image was loaded, and the last result is zero, with no assertion that failed.
pub data Succeeded (mem : Allocator) (files : Files) (host : Host) (rounds turns : ℕ)
    (filename : List ℕ) (args : List (List ℕ)) : Type 0 where
  succeeded :
      (image : List ℕ) (vm : Vm)
      → common_vm_setup mem files filename ≡ done (loaded image)
      → run_image host rounds args turns image ≡ done (0, vm)
      → vm.assert_failures ≡ 0
      → Succeeded mem files host rounds turns filename args

-- A failure has a code of its own.
abbrev HasCode : Loaded → Type 0
HasCode (failed err) = err ≢ 0
HasCode (loaded image) = Unit
