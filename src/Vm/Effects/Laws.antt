-- ===== src/Vm/Effects/Laws.antt =====
-- svm/vm.c: instructions in a row keep to the sum of their effects on the stack.
use sedona_vm_debug.Base.{ℕ, ◌+◌, ◌≤◌, ◌≡◌, refl, arith, Option, none, some}
use sedona_vm_debug.Memory.{Outcome, done}
use sedona_vm_debug.Vm.Opcode.{Opcode}
use sedona_vm_debug.Vm.Machine.{Vm, Step, running}
use sedona_vm_debug.Base.{true, false, if◌then◌else◌}
use sedona_vm_debug.Vm.Exec.Arith.{Fpu}
use sedona_vm_debug.Vm.Exec.Calls.{Natives}
use sedona_vm_debug.Vm.Loop.{exec}
use mathlib.Core.Option.{none-ne-some}
use sedona_vm_debug.Base.{List, [], ◌∷◌, ◌-◌, leb, leb→le, Bool-cases, inl, inr, ◌∙◌, sym, ap}
use sedona_vm_debug.Memory.{◌>>=◌}
use sedona_vm_debug.Vm.Effects.{effect, height_after, then_height, height, on_running, exec_all}
use sedona_vm_debug.Vm.Effects.Faults.{Faults, here, later, faults}
use sedona_vm_debug.Vm.Effects.Cases.{Fits, Moves, Runs, unknown, moves, stuck, exec-Runs}

-- An instruction that the count accepts finds its operands.
counted-Fits :
    (o : Option (ℕ × ℕ)) (d e : ℕ) (vm : Vm) (f : ℕ → Option ℕ)
    → then_height (height_after o d) f ≡ some e
    → d ≤ vm.sp
    → Fits o vm
counted-Fits none d e vm f h room = tt
counted-Fits (some (pops, pushes)) d e vm f h room = elim (Bool-cases (leb pops d)) [
  | inl enough ↦ ground arith
  | inr short ↦ absurd (refused short h)
]
  where
    refused : leb pops d ≡ false → ¬ (then_height (height_after (some (pops, pushes)) d) f ≡ some e)
    refused short = rw short (λ h. cc)

module _ (natives : Natives) (fpu : Fpu) (op : Opcode) (ops : List Opcode) (d e : ℕ) (vm : Vm)
    (rest : (c : ℕ) (mid : Vm)
      → height ops c ≡ some e
      → c ≤ mid.sp
      → Runs (Faults natives fpu ops mid) (some (c, e)) mid (exec_all natives fpu ops mid)) where
  joined :
      {p q : ℕ} {mid : Vm} (r : Outcome Step)
      → exec natives fpu op vm ≡ done (running mid)
      → Moves p q vm mid
      → p ≤ d
      → Runs (Faults natives fpu ops mid) (some (d - p + q, e)) mid r
      → Runs (Faults natives fpu (op ∷ ops) vm) (some (d, e)) vm r
  joined _ ran m below (moves n) = moves (record {
    height = omega (arith, m.height, n.height);
    same_fp = n.same_fp ∙ m.same_fp;
    same_pp = n.same_pp ∙ m.same_pp;
    same_lp = n.same_lp ∙ m.same_lp;
  })
  joined _ ran m below (stuck fault) = stuck (later ran fault)

  first-Runs :
      (o : Option (ℕ × ℕ)) (r : Outcome Step)
      → exec natives fpu op vm ≡ r
      → Runs (faults op vm ≡ true) o vm r
      → then_height (height_after o d) (height ops) ≡ some e
      → d ≤ vm.sp
      → Runs
          (Faults natives fpu (op ∷ ops) vm)
          (some (d, e))
          vm
          (r >>= on_running (exec_all natives fpu ops))
  first-Runs _ r ran unknown h room = absurd cc
  first-Runs _ _ ran (stuck fault) h room = stuck (here fault)
  first-Runs _ _ ran (moves {pops} {pushes} {after} m) h room = elim (Bool-cases (leb pops d)) [
    | inl enough ↦
        let left : height ops (d - pops + pushes) ≡ some e =
          sym (
            ap (λ b. then_height (if b then some (d - pops + pushes) else none) (height ops))
              enough)
          ∙ h in
        let below : pops ≤ d = leb→le pops d enough in
        joined (exec_all natives fpu ops after) ran m below
          (rest (d - pops + pushes) after left (omega (arith, m.height)))
    | inr short ↦ absurd (
        none-ne-some e (
          sym (
            ap (λ b. then_height (if b then some (d - pops + pushes) else none) (height ops)) short)
          ∙ h))
  ]

-- Instructions without jumps and calls, whose effects on the stack add up from `d` cells to `e`
-- without popping more cells than are there: on a stack of `d` cells or more they run to the end,
-- `e` cells stand where the `d` were, and the registers of the frame are as before; or, after those
-- before it have run, one of them is a division or a remainder by zero or of the least value by -1,
-- or a shift by the width or more, and then the run is undefined. Sums, differences, products and
-- negations of signed values are taken to wrap.
pub exec_all-Runs :
    (natives : Natives) (fpu : Fpu) (ops : List Opcode) (d e : ℕ) (vm : Vm)
    → height ops d ≡ some e
    → d ≤ vm.sp
    → Runs (Faults natives fpu ops vm) (some (d, e)) vm (exec_all natives fpu ops vm)
unfolding height exec_all
exec_all-Runs natives fpu [] d e vm h room =
    let same : d ≡ e = cc in
    moves
      (record { height = ap (λ n. vm.sp + n) same; same_fp = refl; same_pp = refl; same_lp = refl })
exec_all-Runs natives fpu (op ∷ ops) d e vm h room =
    first-Runs natives fpu op ops d e vm (λ c mid. exec_all-Runs natives fpu ops c e mid)
      (effect op) (exec natives fpu op vm) refl
      (exec-Runs natives fpu op vm (counted-Fits (effect op) d e vm (height ops) h room)) h room
